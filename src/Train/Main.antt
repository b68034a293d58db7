-- ===== src/Train/Main.antt =====
-- src/train/train.py as a program: its command line, `main`, and the status with which it ends. The
-- trainer's checkpoints are those of src/torch_ext/checkpoint.py. What argparse has split off, the
-- libraries and what the calls of each `save` come to are arguments; the optimizer and the scheduler
-- are part of the model's state.
pub mod Saving
pub mod Handover
use Prim.Native.String.{◌++◌}
use ca_project.Common.{ℕ, String, Bool, Option, none, some, Result, ok, raise, ◌>>=◌, List, []}
use ca_project.Common.Int.{ℤ, pos}
use ca_project.TorchExt.Paths.{Location, to_text, path_folder}
use ca_project.TorchExt.Checkpoint.{World, Calls, Checkpoint, new_checkpoint, save}
use ca_project.Train.Assets.{Library, build_model, build_dataloader}
use ca_project.Train.Start.{Plan, plan}
use ca_project.Train.Trainer.{Training, train}

-- the texts of the options that are given
pub record Options : Type 0 where
  pub checkpoint_pfs_dir : Option String
  pub checkpoint_local_dir : Option String
  pub profile : Bool
  pub checkpoint_interval : Option String
  pub total_steps : Option String
  pub warmup_steps : Option String

pub record Args : Type 0 where
  pub checkpoint_pfs_dir : String
  pub checkpoint_local_dir : String
  pub profile : Bool
  pub checkpoint_interval : ℤ
  pub total_steps : ℤ
  pub warmup_steps : ℤ

abbrev pub or_default {ℓ} : {V : Type ℓ} → V → Option V → V
or_default v none = v
or_default v (some w) = w

-- `type=int` with a default; `none` is argparse's error
abbrev pub int_option : (String → Option ℤ) → ℤ → Option String → Option ℤ
int_option read default none = some default
int_option read default (some text) = read text

module _ {V W : Type 0} where
  abbrev pub and_then : Option V → (V → Option W) → Option W
  and_then none next = none
  and_then (some v) next = next v

-- `parse_args`, where `read` is Python's `int` of a text
unfoldable pub parse_args : (String → Option ℤ) → Options → Option Args
parse_args read given = and_then given.checkpoint_pfs_dir λ pfs.
    and_then (int_option read (pos 10) given.checkpoint_interval) λ interval.
      and_then (int_option read (pos 50) given.total_steps) λ total.
        and_then (int_option read (pos 10) given.warmup_steps) λ warmup. some (record {
          checkpoint_pfs_dir = pfs;
          checkpoint_local_dir = or_default "/tmp/" given.checkpoint_local_dir;
          profile = given.profile;
          checkpoint_interval = interval;
          total_steps = total;
          warmup_steps = warmup;
        })

-- where the checkpoints go, before the id of the job is in the name
abbrev pub pfs_path : String → Location
pfs_path dir = record { folder = path_folder dir; name = "checkpoint.pt" }

-- what the trainer works on: the model in training and the world of its checkpoints
pub record Job (F A M : Type 0) : Type 0 where
  pub model : M
  pub world : World F A

-- `_checkpoint_local_path_for_step`
abbrev pub local_path : (ℕ → String) → String → ℕ → String
local_path show_nat dir step =
    to_text (record { folder = path_folder dir; name = "checkpoint_" ++ (show_nat step ++ ".pt") })

abbrev pub learn_job : {B F A M : Type 0} → (B → M → M) → B → Job F A M → Job F A M
learn_job learn b j = record j { model = learn b j.model }

-- what a `save` leaves to the trainer
abbrev pub job_after :
    {F A M : Type 0} → Job F A M → Result (Unit {0}) × World F A → Result (Job F A M)
job_after j (raise e, w) = raise e
job_after j (ok _, w) = ok (record j { world = w })

-- `self.checkpoint.save` at a step
unfoldable pub save_job :
    {F A M : Type 0}
    → (ℕ → String)
    → (ℕ → M → A)
    → (ℕ → Calls F)
    → String
    → ℕ
    → Job F A M
    → Result (Job F A M)
save_job show_nat state_of calls folder step j =
    job_after j
      (save (calls step) (state_of step j.model) (local_path show_nat folder step) j.world)

-- what `main` sets up before it trains: the numbers, the batches and the job
pub record Setup (B J : Type 0) : Type 0 where
  pub numbers : Plan
  pub batches : List B
  pub job : J

module _ {F A D T M S B : Type 0} (lib : Library D T M S B) (show_nat : ℕ → String)
    (learn : B → M → M) (state_of : ℕ → M → A) (calls : ℕ → Calls F) (job_id : String) where
  unfoldable pub set_up : Args → D → Result (Setup B (Job F A M))
  set_up args d = do
    p ← plan args.checkpoint_interval args.total_steps args.warmup_steps
    (model, d1) ← build_model lib "bert-base-uncased" d
    loader ← build_dataloader lib 8 "bert-base-uncased" "wikitext" d1
    checkpoint ←
        new_checkpoint (pos p.total_epochs) (pfs_path args.checkpoint_pfs_dir) (some job_id)
    ok (record {
      numbers = p;
      batches = loader.0;
      job = record {
        model = model;
        world = record { checkpoint = checkpoint; local_files = []; pfs_files = []; requests = [] };
      };
    })

  -- `main`, with as many runs through the data as steps; `none` is a training that goes on
  unfoldable pub main : Args → D → Option (Result (Training (Job F A M)))
  main args d = elim (set_up args d) [
    | raise e ↦ some (raise e)
    | ok s ↦
        train s.numbers.total_steps s.numbers.checkpoint_interval (learn_job learn)
          (save_job show_nat state_of calls args.checkpoint_local_dir) s.numbers.total_steps
          s.batches s.job
  ]

  -- the status of the process: argparse's, or what becomes of `main`
  unfoldable pub status : (String → Option ℤ) → Options → D → Option ℕ
  status read given d = elim (parse_args read given) [
    | none ↦ some 2
    | some args ↦ elim (main args d) [
      | none ↦ none
      | some (raise e) ↦ some 1
      | some (ok t) ↦ some 0
    ]
  ]
