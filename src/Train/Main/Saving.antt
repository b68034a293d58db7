-- ===== src/Train/Main/Saving.antt =====
-- One save of a training of src/train/train.py whose calls succeed.
use native.Mathlib.Nat.{div-add-mod'}
use ca_project.Common.{
  ℕ, zero, suc, String, ◌*◌, ◌/◌, ◌%◌, ◌<◌, ◌≡◌, refl, sym, ap, ◌∙◌, Bool, true, false, not, List,
  [], ◌∷◌, ◌==◌, if◌then◌else◌, ok, arith, Bool-cases, inl, inr,
}
use ca_project.Common.Int.{pos}
use ca_project.Common.Dict.{put}
use ca_project.Protocol.{CheckpointSavedRequest}
use ca_project.TorchExt.Paths.{Location, to_text, derive_alt_checkpoint_path}
use ca_project.TorchExt.Checkpoint.{
  World, Calls, Checkpoint, save, save_handler, whole, flip, advance_epoch, request_for,
  target_pfs_path,
}
use ca_project.Train.Trainer.{Training, train_batch, save_if_due}
use ca_project.Train.Trainer.Runs.{Returns}
use ca_project.Train.Trainer.Saves.{div-suc}
use ca_project.Train.Main.{Job, local_path, learn_job, job_after, save_job}

-- The local save and the RPC of a `save` succeed.
pub record IsHanded {F : Type 0} (calls : Calls F) : Type 0 where
  pub local_mkdir : calls.local_mkdir ≡ true
  pub torch_save : calls.torch_save ≡ true
  pub answered : Bool
  pub rpc : calls.rpc ≡ ok answered

-- Such a `save` returns, with one request more, the next epoch and the other path.
save_lem :
    {F A : Type 0} (calls : Calls F) (state : A) (local : String) (w : World F A)
    → IsHanded calls
    → (w' : World F A) × (save calls state local w ≡ (ok tt, w'))
      × (w'.checkpoint ≡ flip (advance_epoch w.checkpoint))
      × (w'.requests
          ≡ request_for calls.now local (target_pfs_path w.checkpoint) w.checkpoint ∷ w.requests)
unfolding save save_handler
save_lem calls state local w h = (
  record w {
    checkpoint = flip (advance_epoch w.checkpoint);
    local_files = put local (whole state) w.local_files;
    requests = request_for calls.now local (target_pfs_path w.checkpoint) w.checkpoint ∷ w.requests;
  },
  rw (h.local_mkdir, h.torch_save, h.rpc) refl,
  refl,
  refl,
)

abbrev pub is_odd : ℕ → Bool
is_odd zero = false
is_odd (suc n) = not (is_odd n)

-- the checkpoint manager after some saves
abbrev pub manager : Location → ℕ → ℕ → Checkpoint
manager path total k = record {
  checkpoint_pfs_path = path;
  checkpoint_pfs_path_alt = derive_alt_checkpoint_path path;
  use_alt_pfs_path = is_odd k;
  total_epochs = pos total;
  epoch = k;
}

whole_steps : (k n q : ℕ) → n % k ≡ 0 → n / k ≡ q → n ≡ q * k
whole_steps k n q rest same = rw (← same) (omega (arith, div-add-mod' n k, rest))

module _ {F : Type 0} (show_nat : ℕ → String) (calls : ℕ → Calls F) (folder : String)
    (path : Location) (total interval : ℕ) where
  -- The requests of some saves, the newest first: each names the file of its step, the two paths in
  -- turn, and which of how many epochs it is.
  unfoldable pub requests_of : ℕ → List (CheckpointSavedRequest F)
  requests_of zero = []
  requests_of (suc k) =
      record {
        checkpoint_local_path = local_path show_nat folder (suc k * interval);
        checkpoint_pfs_path = to_text (if is_odd k then derive_alt_checkpoint_path path else path);
        timestamp = (calls (suc k * interval)).now;
        epoch = pos (suc k);
        total_epochs = pos total;
      }
      ∷ requests_of k

  -- The job has handed over a checkpoint at each multiple of the interval so far.
  abbrev pub HandsOver : {A M : Type 0} → Training (Job F A M) → Type 0
  HandsOver t =
      (t.state.world.checkpoint ≡ manager path total (t.step / interval))
      × (t.state.world.requests ≡ requests_of (t.step / interval))

  module _ {A M : Type 0} (state_of : ℕ → M → A) (handed : (n : ℕ) → IsHanded (calls n)) where
    -- One save, with the requests it leaves.
    save-HandsOver :
        (k n : ℕ) (j : Job F A M)
        → n ≡ suc k * interval
        → j.world.checkpoint ≡ manager path total k
        → j.world.requests ≡ requests_of k
        → (j' : Job F A M) × (save_job show_nat state_of calls folder n j ≡ ok j')
          × (j'.world.checkpoint ≡ manager path total (suc k))
          × (j'.world.requests ≡ requests_of (suc k))
    unfolding save_job requests_of
    save-HandsOver k n j e c r =
        let (w, saved, manages, asks) =
          save_lem (calls n) (state_of n j.model) (local_path show_nat folder n) j.world
            (handed n) in
        (
          record j { world = w },
          ap (job_after j) saved,
          manages ∙ ap (λ m. flip (advance_epoch m)) c,
          asks
              ∙ ap
                  (λ m.
                    request_for (calls n).now (local_path show_nat folder n) (target_pfs_path m) m
                    ∷ j.world.requests)
                  c
              ∙ ap
                  (λ rest.
                    request_for (calls n).now (local_path show_nat folder n)
                      (target_pfs_path (manager path total k)) (manager path total k)
                    ∷ rest)
                  r
              ∙ ap
                  (λ step.
                    request_for (calls step).now (local_path show_nat folder step)
                      (target_pfs_path (manager path total k)) (manager path total k)
                    ∷ requests_of k)
                  e,
        )

    module _ {B : Type 0} (learn : B → M → M) (max_steps : ℕ) (positive : 0 < interval) where
      pub batch-HandsOver :
          (b : B) (t : Training (Job F A M))
          → t.step < max_steps
          → HandsOver t
          → Returns max_steps interval
              (learn_job learn)
              (save_job show_nat state_of calls folder)
              HandsOver
              (train_batch max_steps interval
                (learn_job learn)
                (save_job show_nat state_of calls folder)
                b
                t)
              t.step
      unfolding train_batch save_if_due
      batch-HandsOver b t before h =
          let some_steps : (interval == 0) ≡ false = ground arith in
          elim (Bool-cases (suc t.step % interval == 0)) [
            | inr early ↦
                let same : t.step / interval ≡ suc t.step / interval =
                  ground (arith, div-suc interval t.step positive) in
                rw (some_steps, early)
                  ((h.0 ∙ ap (manager path total) same, h.1 ∙ ap requests_of same), refl)
            | inl due ↦
                let next : suc t.step / interval ≡ suc (t.step / interval) =
                  ground (arith, div-suc interval t.step positive) in
                let at_step : suc t.step ≡ suc (t.step / interval) * interval =
                  whole_steps interval (suc t.step) (suc (t.step / interval)) (ground arith) next in
                let (j, saved, manages, asks) =
                  save-HandsOver (t.step / interval) (suc t.step) (learn_job learn b t.state)
                    at_step h.0 h.1 in
                rw (some_steps, due, saved)
                  (
                    (
                      manages ∙ ap (manager path total) (sym next),
                      asks ∙ ap requests_of (sym next),
                    ),
                    refl,
                  )
          ]
