-- ===== src/TorchExt/Checkpoint/Copying.antt =====
-- The fallback copy of src/torch_ext/checkpoint.py.
use text.Mathlib.Text.{◌==◌ as str_eq}
use text.Mathlib.TextEquality.{eq_iff}
use ca_project.Common.{
  String, Bool, false, Option, none, some, if◌then◌else◌, ◌≡◌, ◌≢◌, ◌&&◌, refl, arith, ◌⊎◌,
}
use ca_project.Common.Dict.{Dict, get, put, pop, get-put, get-pop}
use ca_project.TorchExt.Paths.{Location, to_text, tmp_target, len-tmp_target, apart_by_len}
use ca_project.TorchExt.Checkpoint.{Content, partial, Calls, fallback_save}

module _ {A : Type 0} where
  -- How a fallback copy may end for the file at `q`: copied to the target, or left as it was.
  abbrev pub IsAtomicAt :
      String → Location → Option (Content A) → Dict (Content A) → Bool × Dict (Content A) → Type 0
  IsAtomicAt q target source files (copied, after) =
      (get q after ≡ (if copied && str_eq (to_text target) q then source else get q files))
      × ((copied ≡ false) ⊎ (source ≢ none))

pub tmp-≢ : (hex : String) (target : Location) → to_text (tmp_target hex target) ≢ to_text target
unfolding tmp_target
tmp-≢ hex target =
    apart_by_len (tmp_target hex target) target refl
      (λ e. absurd (omega (arith, e, len-tmp_target hex target)))

module _ {F A : Type 0} where
  -- The fallback copy is atomic: it says that it copied only if there was a source, and then the
  -- target is the source's content; every other file, the target too where it failed, is what it
  -- was. The one exception is the temporary file, whose name is drawn at random.
  pub fallback_save-IsAtomicAt :
      (calls : Calls F) (source : Option (Content A)) (target : Location) (files : Dict (Content A))
      (q : String)
      → q ≢ to_text (tmp_target calls.hex target)
      → IsAtomicAt q target source files (fallback_save calls source target files)
  unfolding fallback_save
  fallback_save-IsAtomicAt calls none target files q other =
      let tmp = to_text (tmp_target calls.hex target) in
      ground (arith, get-pop tmp q files, eq_iff tmp q)
  fallback_save-IsAtomicAt calls (some content) target files q other =
      let tmp = to_text (tmp_target calls.hex target) in
      ground (
        arith,
        get-put (to_text target) q content (pop tmp files),
        get-pop tmp q files,
        get-put tmp q content files,
        get-put tmp q partial files,
        get-pop tmp q (put tmp content files),
        get-pop tmp q (put tmp partial files),
        eq_iff tmp q,
      )
