-- ===== src/Train/Main/Handover.antt =====
-- The checkpoints that a training of src/train/train.py hands over.
use ca_project.Common.{
  ℕ, String, ◌/◌, ◌<◌, ◌≡◌, refl, sym, ap, ◌∙◌, Option, some, List, [], length, ok, arith,
}
use ca_project.Common.Int.{ℤ, pos, negsuc}
use ca_project.Protocol.{CheckpointSavedRequest}
use ca_project.TorchExt.Paths.{Location}
use ca_project.TorchExt.Checkpoint.{Calls, new_checkpoint, append_job_id}
use ca_project.Train.Assets.{Library, build_model, build_dataloader}
use ca_project.Train.Start.{Plan, plan}
use ca_project.Train.Start.Validation.{plan-IsFit}
use ca_project.Train.Trainer.{Training}
use ca_project.Train.Trainer.Runs.{train-End}
use ca_project.Train.Main.Saving.{IsHanded, manager, requests_of, HandsOver, batch-HandsOver}
use ca_project.Train.Main.{
  Options, Args, Setup, parse_args, pfs_path, Job, learn_job, save_job, set_up, main, status,
}

-- the job before the first save
abbrev first_job : {F A M : Type 0} → M → Location → ℕ → Job F A M
first_job model path total = record {
  model = model;
  world = record {
    checkpoint = manager path total 0;
    local_files = [];
    pfs_files = [];
    requests = [];
  };
}

-- what `main` sets up
abbrev first_setup : {F A M B : Type 0} → Plan → List B → Job F A M → Setup B (Job F A M)
first_setup p bs job = record { numbers = p; batches = bs; job = job }

plan-epochs :
    (i t w : ℤ) (p : Plan)
    → plan i t w ≡ ok p
    → p.total_epochs ≡ p.total_steps / p.checkpoint_interval
unfolding plan
plan-epochs (pos i) (pos t) (pos w) p h = ground arith
plan-epochs (negsuc i) t w p h = absurd (cc)
plan-epochs (pos i) (negsuc t) w p h = absurd (ground arith)
plan-epochs (pos i) (pos t) (negsuc w) p h = absurd (ground arith)

module _ {F A D T M S B : Type 0} (lib : Library D T M S B) (show_nat : ℕ → String)
    (learn : B → M → M) (state_of : ℕ → M → A) (calls : ℕ → Calls F) (job_id : String) where
  -- A training that is configured well hands over all the checkpoints that it announces. If the
  -- command line parses and its numbers pass the validation, the model and some data load, and
  -- every local save and RPC succeeds, then the program ends with status 0 after exactly the steps
  -- that were asked for, and what the migrater has been told of is one checkpoint for each of the
  -- announced epochs: at each multiple of the interval, numbered from 1 to the number announced,
  -- each under the name of its step and to the two paths in turn.
  pub main_hands_over :
      (read : String → Option ℤ) (given : Options) (args : Args) (d d1 d2 : D) (p : Plan)
      (model : M) (bs : List B)
      → parse_args read given ≡ some args
      → plan args.checkpoint_interval args.total_steps args.warmup_steps ≡ ok p
      → build_model lib "bert-base-uncased" d ≡ ok (model, d1)
      → build_dataloader lib 8 "bert-base-uncased" "wikitext" d1 ≡ ok (bs, d2)
      → 0 < length bs
      → ((n : ℕ) → IsHanded (calls n))
      → (u : Training (Job F A M)) × (main lib show_nat learn state_of calls job_id args d
          ≡ some (ok u))
        × (status lib show_nat learn state_of calls job_id read given d ≡ some 0)
        × (u.step ≡ p.total_steps)
        × (u.state.world.requests
            ≡ requests_of show_nat calls args.checkpoint_local_dir
                (append_job_id job_id (pfs_path args.checkpoint_pfs_dir))
                p.total_epochs
                p.checkpoint_interval
                p.total_epochs)
  unfolding requests_of set_up new_checkpoint main status
  main_hands_over read given args d d1 d2 p model bs parses fits loads batches some_data handed =
      let path = append_job_id job_id (pfs_path args.checkpoint_pfs_dir) in
      let fit = plan-IsFit args.checkpoint_interval args.total_steps args.warmup_steps p fits in
      let epochs = plan-epochs args.checkpoint_interval args.total_steps args.warmup_steps p fits in
      let job : Job F A M = first_job model path p.total_epochs in
      let asked : ℕ → List (CheckpointSavedRequest F) =
        requests_of show_nat calls args.checkpoint_local_dir path p.total_epochs
          p.checkpoint_interval in
      let none_yet : 0 ≡ 0 / p.checkpoint_interval = grind arith in
      let (u, returns, ends, (manages, asks)) =
        train-End p.total_steps p.checkpoint_interval (learn_job learn)
          (save_job show_nat state_of calls args.checkpoint_local_dir)
          (HandsOver show_nat calls args.checkpoint_local_dir path p.total_epochs
            p.checkpoint_interval)
          (batch-HandsOver show_nat calls args.checkpoint_local_dir path p.total_epochs
            p.checkpoint_interval state_of handed learn p.total_steps fit.interval_pos)
          bs job some_data (ap (manager path p.total_epochs) none_yet, ap asked none_yet) in
      let count : u.step / p.checkpoint_interval ≡ p.total_epochs =
        ap (λ n. n / p.checkpoint_interval) ends ∙ sym epochs in
      let ready : set_up lib show_nat learn state_of calls job_id args d
          ≡ ok (first_setup p bs job) =
        rw (set_up, fits, loads, batches, new_checkpoint) refl in
      let ended : main lib show_nat learn state_of calls job_id args d ≡ some (ok u) =
        rw (main, ready) returns in
      (u, ended, rw (status, parses, ended) refl, ends, asks ∙ ap asked count)
