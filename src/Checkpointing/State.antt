-- ===== src/Checkpointing/State.antt =====
-- The managers of src/backup/checkpointing, what they call of PyTorch, what they save and where, and
-- the state of a training with its files.
use ca_project.Common.{
  ℕ, Bool, Option, none, some, List, ◌∷◌, ◌++◌, ◌==◌, get_last?, if◌then◌else◌, Result, ok, raise,
  attribute_error,
}
use ca_project.Common.Dict.{Dict}
use ca_project.Common.Text.{codes, same}
use ca_project.Common.Numerals.{show_nat}

-- What is called of PyTorch, for tensors `T`, and the state dicts of an optimizer and of a scheduler.
pub record Torch (T O C : Type 0) : Type 0 where
  pub half : T → T
  pub float : T → T
  pub is_float32 : T → Bool
  pub is_float16 : T → Bool
  pub sub : T → T → T
  -- `load_state_dict`: what is loaded, then the state before and after
  pub load_model : Dict T → Dict T → Result (Dict T)
  pub load_optimizer : O → O → Result O
  pub load_scheduler : C → C → Result C
  -- whether the state dict of a scheduler has no entry
  pub is_empty : C → Bool
  -- `dist.get_rank()`, where `dist` is initialized
  pub rank : Option ℕ

-- A manager: the base manager by its `save_dir`, or a wrapper around a manager. Its `save` starts at
-- the wrapper and goes inwards.
pub data Manager : Type 0 where
  torch : List ℕ → Manager
  decorator asynchronous compression incremental sharded : Manager → Manager

-- the dict that is saved
pub record Checkpoint (T O C : Type 0) : Type 0 where
  pub step : ℕ
  pub model_state : Dict T
  pub optimizer_state : O
  pub scheduler_state : Option C

-- The training state, the files by their paths, whether the incremental wrapper has a `prev_state`,
-- which then is the live tensors, and the threads that have not run.
pub record World (T O C : Type 0) : Type 0 where
  pub params : Dict T
  pub optimizer : O
  pub scheduler : Option C
  pub files : List ℕ → Option (Checkpoint T O C)
  pub has_prev : Bool
  pub tasks : List (Manager × ℕ)

-- `os.path.join`, with a name that does not start with a slash
abbrev pub join_path : List ℕ → List ℕ → List ℕ
join_path dir name = elim (get_last? dir) [
  | none ↦ name
  | some c ↦ if c == 47 then dir ++ name else dir ++ 47 ∷ name
]

-- `os.path.join(save_dir, f"checkpoint_{step}.pt")`
abbrev pub checkpoint_path : List ℕ → ℕ → List ℕ
checkpoint_path dir step = join_path dir (codes "checkpoint_" ++ (show_nat step ++ codes ".pt"))

-- `manager.save_dir`, which only the base manager has
abbrev pub save_dir : Manager → Result (List ℕ)
save_dir (torch dir) = ok dir
save_dir m = raise attribute_error

module _ {T O C : Type 0} where
  -- `torch.save`
  abbrev pub write : List ℕ → Checkpoint T O C → World T O C → World T O C
  write path c w = record w { files = λ q. if same path q then some c else w.files q }

  abbrev pub state : ℕ → Dict T → World T O C → Checkpoint T O C
  state step model w = record {
    step = step;
    model_state = model;
    optimizer_state = w.optimizer;
    scheduler_state = w.scheduler;
  }
