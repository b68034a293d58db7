-- ===== src/TorchExt/Checkpoint.antt =====
-- `Checkpoint` of src/torch_ext/checkpoint.py, and `MigraterClient` of
-- src/protocol/migrater/client.py, which it calls. The files of the node and of the PFS are
-- dictionaries from paths; `A` is what is in a file. What the calls of the operating system, of torch
-- and of gRPC come to in one `save` is that save's `Calls`.
pub mod Copying
pub mod Alternation
use Prim.Native.String.{◌++◌}
use text.Mathlib.Text.{◌==◌ as str_eq}
use ca_project.Common.{
  ℕ, suc, String, Bool, true, false, not, Option, none, some, List, [], ◌∷◌, if◌then◌else◌, Result,
  ok, raise, os_error, runtime_error, value_error, check, ◌>>=◌, ◌>>◌,
}
use ca_project.Common.Int.{ℤ, pos}
use ca_project.Common.Dict.{Dict, get, put, pop}
use ca_project.Protocol.{CheckpointSavedRequest}
use ca_project.TorchExt.Paths.{Location, to_text, tagged, derive_alt_checkpoint_path, tmp_target}

-- the whole of what was to be written, or a part of it
pub data Content (A : Type 0) : Type 0 where
  whole : A → Content A
  partial : Content A

pub record Checkpoint : Type 0 where
  pub checkpoint_pfs_path : Location
  pub checkpoint_pfs_path_alt : Location
  pub use_alt_pfs_path : Bool
  pub total_epochs : ℤ
  pub epoch : ℕ

-- What a `save` works on; `requests` are those that the migrater has answered, the newest first.
pub record World (F A : Type 0) : Type 0 where
  pub checkpoint : Checkpoint
  pub local_files : Dict (Content A)
  pub pfs_files : Dict (Content A)
  pub requests : List (CheckpointSavedRequest F)

-- `mkdir`, `torch.save`, the clock, the RPC with the `ok` of its response, and in the fallback
-- `mkdir`, `uuid4`, `copy2`, `replace`, `unlink`
pub record Calls (F : Type 0) : Type 0 where
  pub local_mkdir : Bool
  pub torch_save : Bool
  pub now : F
  pub rpc : Result Bool
  pub pfs_mkdir : Bool
  pub hex : String
  pub copy2 : Bool
  pub replace : Bool
  pub unlink : Bool

-- `_append_job_id`; `job_id` is SLURM_JOB_ID, or the process id
abbrev pub append_job_id : String → Location → Location
append_job_id job_id = tagged ("_" ++ job_id)

-- `__init__`, where `job_id` is given if the name is to carry it
unfoldable pub new_checkpoint : ℤ → Location → Option String → Result Checkpoint
new_checkpoint total_epochs path job_id = do
  check (not (str_eq path.name "")) value_error
  let named : Location = elim job_id [ none ↦ path | some id ↦ append_job_id id path ]
  ok (record {
    checkpoint_pfs_path = named;
    checkpoint_pfs_path_alt = derive_alt_checkpoint_path named;
    use_alt_pfs_path = false;
    total_epochs = total_epochs;
    epoch = 0;
  })

-- the path that the next `save` hands over
abbrev pub target_pfs_path : Checkpoint → Location
target_pfs_path c = if c.use_alt_pfs_path then c.checkpoint_pfs_path_alt else c.checkpoint_pfs_path

-- `MigraterClient.notify_checkpoint_saved`: the response is dropped
abbrev pub notify_checkpoint_saved : Result Bool → Result (Unit {0})
notify_checkpoint_saved (ok answered) = ok tt
notify_checkpoint_saved (raise e) = raise e

abbrev pub advance_epoch : Checkpoint → Checkpoint
advance_epoch c = record c { epoch = suc c.epoch }

abbrev pub flip : Checkpoint → Checkpoint
flip c = record c { use_alt_pfs_path = not c.use_alt_pfs_path }

abbrev pub request_for :
    {F : Type 0} → F → String → Location → Checkpoint → CheckpointSavedRequest F
request_for timestamp local target c = record {
  checkpoint_local_path = local;
  checkpoint_pfs_path = to_text target;
  timestamp = timestamp;
  epoch = pos (suc c.epoch);
  total_epochs = c.total_epochs;
}

module _ {F A : Type 0} where
  -- the `except` of `_fallback_save`
  abbrev pub clean_up : Calls F → String → Dict (Content A) → Dict (Content A)
  clean_up calls tmp files = if calls.unlink then pop tmp files else files

  -- `_fallback_save`: whether it copied, and the files of the PFS
  unfoldable pub fallback_save :
      Calls F → Option (Content A) → Location → Dict (Content A) → Bool × Dict (Content A)
  fallback_save calls source target files =
      let tmp = to_text (tmp_target calls.hex target) in
      if calls.pfs_mkdir
      then (elim source [
        | none ↦ (false, clean_up calls tmp files)
        | some content ↦
            if calls.copy2
            then (if calls.replace
                then (true, put (to_text target) content (pop tmp files))
                else (false, clean_up calls tmp (put tmp content files)))
            else (false, clean_up calls tmp (put tmp partial files))
      ])
      else (false, files)

  -- `_save_handler`
  unfoldable pub save_handler : Calls F → String → Location → World F A → Bool × World F A
  save_handler calls local target w = elim (notify_checkpoint_saved calls.rpc) [
    | ok _ ↦ (
      true,
      record w {
        checkpoint = advance_epoch w.checkpoint;
        requests = request_for calls.now local target w.checkpoint ∷ w.requests;
      },
    )
    | raise e ↦
        let copied = fallback_save calls (get local w.local_files) target w.pfs_files in
        (
          copied.0,
          record w {
            checkpoint = if copied.0 then advance_epoch w.checkpoint else w.checkpoint;
            pfs_files = copied.1;
          },
        )
  ]

  -- `save`: how it ends, and what it leaves
  unfoldable pub save : Calls F → A → String → World F A → Result (Unit {0}) × World F A
  save calls state local w =
      if calls.local_mkdir
      then (if calls.torch_save
          then (let handed =
                save_handler calls local (target_pfs_path w.checkpoint)
                  (record w { local_files = put local (whole state) w.local_files }) in
              if handed.0
              then (ok tt, record (handed.1) { checkpoint = flip (handed.1).checkpoint })
              else (raise runtime_error, handed.1))
          else (raise os_error, record w { local_files = put local partial w.local_files }))
      else (raise os_error, w)
