-- ===== src/Checkpointing.antt =====
-- The checkpoint managers and wrappers of src/backup/checkpointing. What they call of PyTorch is a
-- parameter. `state_dict` of a model gives its live tensors, and `torch.load` what `torch.save` wrote.
mod State
pub mod Restoring
pub mod Deltas
use ca_project.Common.{
  ℕ, String, Bool, true, false, Option, none, some, List, [], ◌∷◌, ◌++◌, map, ◌==◌, get_last?,
  if◌then◌else◌, Result, ok, raise, attribute_error, key_error, os_error, ◌>>=◌,
}
use ca_project.Common.Dict.{Dict, get}
use ca_project.Common.Text.{codes, same}
use ca_project.Common.Numerals.{show_nat}
pub use State.*

module _ {T O C : Type 0} (t : Torch T O C) where
  abbrev pub compress : T → T
  compress x = if t.is_float32 x then t.half x else x

  abbrev pub restore : T → T
  restore x = if t.is_float16 x then t.float x else x

  abbrev pub on_values : (T → T) → Dict T → Dict T
  on_values f = map (λ e. (e.0, f e.1))

  -- the folder of the shard
  abbrev pub shard_dir : List ℕ → List ℕ
  shard_dir dir =
      let rank : ℕ = elim t.rank [ none ↦ 0 | some r ↦ r ] in
      join_path dir (codes "rank_" ++ show_nat rank)

  -- `current_state[k] - prev_state[k]` for each `k`
  unfoldable pub differences : Dict T → Dict T → Result (Dict T)
  differences [] prev = ok []
  differences ((k, x) ∷ current) prev = elim (get k prev) [
    | none ↦ raise key_error
    | some y ↦ do rest ← differences current prev; ok ((k, t.sub x y) ∷ rest)
  ]

  -- `delta_state`, where the two states are the live tensors
  abbrev pub delta_state : World T O C → Result (Dict T)
  delta_state w = if w.has_prev then differences w.params w.params else ok w.params

  -- `TorchCheckpointManager.save`
  abbrev pub torch_save : List ℕ → ℕ → World T O C → Result (World T O C)
  torch_save dir step w = ok (write (checkpoint_path dir step) (state step w.params w) w)

  -- `AsyncCheckpointWrapper.save`: the thread is started.
  abbrev pub asynchronous_save : Manager → ℕ → World T O C → Result (World T O C)
  asynchronous_save m step w = ok (record w { tasks = w.tasks ++ (m, step) ∷ [] })

  -- `CompressionCheckpointWrapper.save`
  abbrev pub compression_save : Manager → ℕ → World T O C → Result (World T O C)
  compression_save m step w = do
    dir ← save_dir m
    ok (write (checkpoint_path dir step) (state step (on_values compress w.params) w) w)

  -- `ShardedCheckpointWrapper.save`
  abbrev pub sharded_save : Manager → ℕ → World T O C → Result (World T O C)
  sharded_save m step w = do
    dir ← save_dir m
    ok (write (checkpoint_path (shard_dir dir) step) (state step w.params w) w)

  -- `IncrementalCheckpointWrapper.save`, by the `save` of the manager that it wraps
  abbrev pub incremental_save :
      (World T O C → Result (World T O C)) → World T O C → Result (World T O C)
  incremental_save save_inner w = do
    delta ← delta_state w
    shown ← t.load_model delta w.params
    saved ← save_inner (record w { params = shown })
    restored ← t.load_model saved.params saved.params
    ok (record saved { params = restored; has_prev = true })

  unfoldable pub save : Manager → ℕ → World T O C → Result (World T O C)
  save (torch dir) step w = torch_save dir step w
  save (decorator m) step w = save m step w
  save (asynchronous m) step w = asynchronous_save m step w
  save (compression m) step w = compression_save m step w
  save (incremental m) step w = incremental_save (save m step) w
  save (sharded m) step w = sharded_save m step w

  -- The threads of the asynchronous wrapper run one after the other; an exception ends its thread.
  unfoldable pub run_tasks : List (Manager × ℕ) → World T O C → World T O C
  run_tasks [] w = w
  run_tasks ((m, step) ∷ tasks) w =
      run_tasks tasks (elim (save m step w) [ raise e ↦ w | ok saved ↦ saved ])

  abbrev pub finish : World T O C → World T O C
  finish w = run_tasks w.tasks (record w { tasks = [] })

  -- what `load` returns, and what it has loaded into the objects that it was given
  pub record Loaded : Type 0 where
    pub step : ℕ
    pub params : Dict T
    pub optimizer : Option O
    pub scheduler : Option C

  abbrev pub load_optimizer : O → Option O → Result (Option O)
  load_optimizer saved none = ok none
  load_optimizer saved (some x) = t.load_optimizer saved x >>= (λ y. ok (some y))

  abbrev pub load_scheduler : Option C → Option C → Result (Option C)
  load_scheduler saved none = ok none
  load_scheduler none (some x) = ok (some x)
  load_scheduler (some c) (some x) =
      if t.is_empty c then ok (some x) else t.load_scheduler c x >>= (λ y. ok (some y))

  -- the part of `load` after `torch.load`
  unfoldable pub load_state : Checkpoint T O C → Dict T → Option O → Option C → Result Loaded
  load_state c params optimizer scheduler = do
    new_params ← t.load_model c.model_state params
    new_optimizer ← load_optimizer c.optimizer_state optimizer
    new_scheduler ← load_scheduler c.scheduler_state scheduler
    ok (record {
      step = c.step;
      params = new_params;
      optimizer = new_optimizer;
      scheduler = new_scheduler;
    })

  -- `torch.load`
  abbrev pub read : Option (Checkpoint T O C) → Result (Checkpoint T O C)
  read none = raise os_error
  read (some c) = ok c

  -- `TorchCheckpointManager.load`
  abbrev pub torch_load : List ℕ → World T O C → Dict T → Option O → Option C → Result Loaded
  torch_load path w params optimizer scheduler = do
    c ← read (w.files path)
    load_state c params optimizer scheduler

  -- `CompressionCheckpointWrapper.load`
  abbrev pub compression_load : List ℕ → World T O C → Dict T → Option O → Option C → Result Loaded
  compression_load path w params optimizer scheduler = do
    c ← read (w.files path)
    load_state (record c { model_state = on_values restore c.model_state }) params optimizer
        scheduler

  -- The wrappers that do not define `load` have that of `CheckpointDecorator`.
  unfoldable pub load :
      Manager → List ℕ → World T O C → Dict T → Option O → Option C → Result Loaded
  load (torch dir) path w params optimizer scheduler = torch_load path w params optimizer scheduler
  load (compression m) path w params optimizer scheduler =
      compression_load path w params optimizer scheduler
  load (decorator m) path w params optimizer scheduler = load m path w params optimizer scheduler
  load (asynchronous m) path w params optimizer scheduler = load m path w params optimizer scheduler
  load (incremental m) path w params optimizer scheduler = load m path w params optimizer scheduler
  load (sharded m) path w params optimizer scheduler = load m path w params optimizer scheduler
