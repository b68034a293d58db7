-- ===== src/TorchExt/Checkpoint/Alternation.antt =====
-- The two paths that `save` of src/torch_ext/checkpoint.py takes in turn.
use Prim.Native.String.{len}
use mathlib.Core.Path.{subst}
use text.Mathlib.TextEquality.{eq_iff}
use text.Mathlib.TextPositions.{eq_refl}
use ca_project.Common.{
  suc, ◌+◌, String, some, ok, raise, Exception, ◌≡◌, ◌≢◌, sym, ap, ◌∙◌, arith, ◌⊎◌, inl, inr,
  Bool-cases,
}
use ca_project.Common.Dict.{get, put, get-put}
use ca_project.TorchExt.Paths.{
  to_text, tagged, derive_alt_checkpoint_path, tmp_target, len-tagged, len-tmp_target, apart_by_len,
}
use ca_project.TorchExt.Checkpoint.{
  whole, Checkpoint, World, Calls, target_pfs_path, save_handler, save, flip, advance_epoch,
}
use ca_project.TorchExt.Checkpoint.Copying.{tmp-≢, fallback_save-IsAtomicAt}

-- The alternate path is the one derived from the path.
abbrev pub IsDerived : Checkpoint → Type 0
IsDerived c = c.checkpoint_pfs_path_alt ≡ derive_alt_checkpoint_path c.checkpoint_pfs_path

alt_folder :
    (c : Checkpoint) → IsDerived c → c.checkpoint_pfs_path_alt.folder ≡ c.checkpoint_pfs_path.folder
unfolding tagged
alt_folder c derived = ap (λ p. p.folder) derived

alt_len :
    (c : Checkpoint)
    → IsDerived c
    → len c.checkpoint_pfs_path_alt.name ≡ len "_alt" + len c.checkpoint_pfs_path.name
alt_len c derived = ap (λ p. len p.name) derived ∙ len-tagged "_alt" c.checkpoint_pfs_path

-- The target that stands after a flip is another file.
flip-≢ :
    (c : Checkpoint)
    → IsDerived c
    → to_text (target_pfs_path (flip c)) ≢ to_text (target_pfs_path c)
flip-≢ c derived = elim (Bool-cases c.use_alt_pfs_path) [
  | inl alt ↦ rw alt (
      apart_by_len c.checkpoint_pfs_path c.checkpoint_pfs_path_alt (sym (alt_folder c derived))
        (λ e. omega (arith, e, alt_len c derived)))
  | inr primary ↦ rw primary (
      apart_by_len c.checkpoint_pfs_path_alt c.checkpoint_pfs_path (alt_folder c derived)
        (λ e. omega (arith, e, alt_len c derived)))
]

-- The temporary file of that target is not the old target either.
tmp-flip-≢ :
    (hex : String) (c : Checkpoint)
    → IsDerived c
    → to_text (tmp_target hex (target_pfs_path (flip c))) ≢ to_text (target_pfs_path c)
unfolding tmp_target
tmp-flip-≢ hex c derived = elim (Bool-cases c.use_alt_pfs_path) [
  | inl alt ↦ rw alt (
      apart_by_len (tmp_target hex c.checkpoint_pfs_path) c.checkpoint_pfs_path_alt
        (sym (alt_folder c derived))
        (λ e. omega (arith, e, alt_len c derived, len-tmp_target hex c.checkpoint_pfs_path)))
  | inr primary ↦ rw primary (
      apart_by_len (tmp_target hex c.checkpoint_pfs_path_alt) c.checkpoint_pfs_path
        (alt_folder c derived)
        (λ e. omega (arith, e, alt_len c derived, len-tmp_target hex c.checkpoint_pfs_path_alt)))
]

module _ {F A : Type 0} where
  -- How a `save` ends: handed over, with the next epoch and the other path for the next `save`, or
  -- by an exception, with the checkpoint manager as it was. The alternate path is the one derived
  -- from the path.
  pub save_ends :
      (calls : Calls F) (state : A) (local : String) (w : World F A)
      → IsDerived w.checkpoint
      → let (result, after) = save calls state local w in
        ((result ≡ ok tt)
          × (after.checkpoint.epoch ≡ suc w.checkpoint.epoch)
          × (to_text (target_pfs_path after.checkpoint) ≢ to_text (target_pfs_path w.checkpoint)))
        ⊎ ((result ≢ ok tt) × (after.checkpoint ≡ w.checkpoint))
  unfolding save save_handler
  save_ends calls state local w derived =
      ground (arith, flip-≢ (advance_epoch w.checkpoint) derived)

  -- A `save` changes no file of the PFS but its target and the target's temporary file.
  save-elsewhere :
      (calls : Calls F) (state : A) (local : String) (w : World F A) (q : String)
      → to_text (target_pfs_path w.checkpoint) ≢ q
      → to_text (tmp_target calls.hex (target_pfs_path w.checkpoint)) ≢ q
      → get q (save calls state local w).1.pfs_files ≡ get q w.pfs_files
  unfolding save save_handler
  save-elsewhere calls state local w q other other' =
      let target = target_pfs_path w.checkpoint in
      let source = get local (put local (whole state) w.local_files) in
      ground (
        arith,
        fallback_save-IsAtomicAt calls source target w.pfs_files q (λ e. other' (sym e)),
        eq_iff (to_text target) q,
      )

  save-IsDerived :
      (calls : Calls F) (state : A) (local : String) (w : World F A)
      → IsDerived w.checkpoint
      → IsDerived (save calls state local w).1.checkpoint
  unfolding save save_handler
  save-IsDerived calls state local w derived = ground arith

  save_turns :
      (calls : Calls F) (state : A) (local : String) (w : World F A)
      → (save calls state local w).0 ≡ ok tt
      → (save calls state local w).1.checkpoint ≡ flip (advance_epoch w.checkpoint)
  unfolding save save_handler
  save_turns calls state local w done = ground arith

  save_copies :
      (calls : Calls F) (state : A) (local : String) (w : World F A) (e : Exception)
      → calls.rpc ≡ raise e
      → (save calls state local w).0 ≡ ok tt
      → get (to_text (target_pfs_path w.checkpoint)) (save calls state local w).1.pfs_files
        ≡ some (whole state)
  unfolding save save_handler
  save_copies calls state local w e failed done =
      let target = target_pfs_path w.checkpoint in
      let source = get local (put local (whole state) w.local_files) in
      ground (
        arith,
        fallback_save-IsAtomicAt calls source target w.pfs_files (to_text target)
            (λ q. tmp-≢ calls.hex target (sym q)),
        get-put local local (whole state) w.local_files,
        eq_refl local,
        eq_refl (to_text target),
      )

  -- A checkpoint that a `save` copied by the fallback, since the RPC raised, is whole on the PFS after
  -- any next `save`, also one that fails halfway: it goes to the other path. The alternate path is
  -- the one derived from the path.
  pub copy_survives :
      (calls calls' : Calls F) (state state' : A) (local local' : String) (w : World F A)
      (e : Exception)
      → IsDerived w.checkpoint
      → calls.rpc ≡ raise e
      → (save calls state local w).0 ≡ ok tt
      → get
          (to_text (target_pfs_path w.checkpoint))
          (save calls' state' local' (save calls state local w).1).1.pfs_files
        ≡ some (whole state)
  copy_survives calls calls' state state' local local' w e derived failed done =
      let q = to_text (target_pfs_path w.checkpoint) in
      let turned = sym (save_turns calls state local w done) in
      let c = advance_epoch w.checkpoint in
      save-elsewhere calls' state' local' (save calls state local w).1 q
        (subst (λ d. to_text (target_pfs_path d) ≢ q) turned (flip-≢ c derived))
        (subst (λ d. to_text (tmp_target calls'.hex (target_pfs_path d)) ≢ q) turned
          (tmp-flip-≢ calls'.hex c derived))
      ∙ save_copies calls state local w e failed done
