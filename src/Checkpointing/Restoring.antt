-- ===== src/Checkpointing/Restoring.antt =====
-- That what the managers of src/backup/checkpointing save is what they load.
use ca_project.Common.{
  ℕ, ◌≡◌, refl, ap, ◌∙◌, true, Option, some, List, [], ◌∷◌, ◌++◌, if◌then◌else◌, ok, arith,
}
use ca_project.Common.Dict.{Dict}
use ca_project.Common.Text.{same}
use ca_project.Checkpointing.{
  Torch, Manager, torch, decorator, asynchronous, compression, incremental, sharded, Checkpoint,
  World, checkpoint_path, write, state, compress, restore, on_values, shard_dir, save, run_tasks,
  finish, load_state, load,
}

-- Managers that save at once, with `save_dir` where it is looked up.
pub data IsDirect : Manager → Type 0 where
  base : (dir : List ℕ) → IsDirect (torch dir)
  compressed : (dir : List ℕ) → IsDirect (compression (torch dir))
  shard : (dir : List ℕ) → IsDirect (sharded (torch dir))
  wrapped : {m : Manager} → IsDirect m → IsDirect (decorator m)

-- One of these, saved at once or in a thread, with decorators around it.
pub data IsUsable : Manager → Type 0 where
  direct : {m : Manager} → IsDirect m → IsUsable m
  threaded : {m : Manager} → IsDirect m → IsUsable (asynchronous m)
  around : {m : Manager} → IsUsable m → IsUsable (decorator m)

pub same_refl : (xs : List ℕ) → same xs xs ≡ true
same_refl [] = refl
same_refl (x ∷ xs) = ground (arith, same_refl xs)

module _ {T O C : Type 0} (t : Torch T O C) where
  -- where a manager saves
  abbrev pub saved_path : Manager → ℕ → List ℕ
  saved_path (torch dir) step = checkpoint_path dir step
  saved_path (decorator m) step = saved_path m step
  saved_path (asynchronous m) step = saved_path m step
  saved_path (compression m) step = saved_path m step
  saved_path (incremental m) step = saved_path m step
  saved_path (sharded (torch dir)) step = checkpoint_path (shard_dir t dir) step
  saved_path (sharded m) step = saved_path m step

  -- what it saves of a model
  abbrev pub stored : Manager → Dict T → Dict T
  stored (compression m) d = on_values t (compress t) d
  stored (torch dir) d = d
  stored (decorator m) d = stored m d
  stored (asynchronous m) d = stored m d
  stored (incremental m) d = stored m d
  stored (sharded m) d = d

  -- A tensor after it was compressed and restored: one in 32 bits is rounded to 16, and all others
  -- keep their values.
  abbrev pub rounded : T → T
  rounded x =
      if t.is_float32 x then t.float (t.half x) else (if t.is_float16 x then t.float x else x)

  -- what is loaded of a model that was saved
  abbrev pub kept : Manager → Dict T → Dict T
  kept (compression m) d = on_values t rounded d
  kept (torch dir) d = d
  kept (decorator m) d = kept m d
  kept (asynchronous m) d = kept m d
  kept (incremental m) d = kept m d
  kept (sharded m) d = d

  pub save-IsDirect :
      {m : Manager} (h : IsDirect m) (step : ℕ) (w : World T O C)
      → save t m step w ≡ ok (write (saved_path m step) (state step (stored m w.params) w) w)
  unfolding save
  save-IsDirect (base dir) step w = refl
  save-IsDirect (compressed dir) step w = refl
  save-IsDirect (shard dir) step w = refl
  save-IsDirect (wrapped h) step w = save-IsDirect h step w

  pub files-write :
      (path : List ℕ) (c : Checkpoint T O C) (w : World T O C)
      → (write path c w).files path ≡ some c
  files-write path c w = rw (same_refl path) refl

  -- A thread that saves.
  run-IsDirect :
      {m : Manager} (h : IsDirect m) (step : ℕ) (w : World T O C)
      → (run_tasks t ((m, step) ∷ []) w).files (saved_path m step)
        ≡ some (state step (stored m w.params) w)
  unfolding run_tasks
  run-IsDirect {m = m} h step w =
      rw (run_tasks, save-IsDirect h step w)
        (files-write (saved_path m step) (state step (stored m w.params) w) w)

  -- After the save and its thread, the file holds the state.
  finish-save :
      {m : Manager} (h : IsUsable m) (step : ℕ) (w : World T O C)
      → w.tasks ≡ []
      → (saved : World T O C) × (save t m step w ≡ ok saved)
        × ((finish t saved).files (saved_path m step) ≡ some (state step (stored m w.params) w))
  unfolding save run_tasks
  finish-save {m = m} (direct h) step w idle =
      let c = state step (stored m w.params) w in
      (
        write (saved_path m step) c w,
        save-IsDirect h step w,
        ap
              (λ ts.
                (run_tasks t ts (record (write (saved_path m step) c w) { tasks = [] })).files
                  (saved_path m step))
              idle
            ∙ files-write (saved_path m step) c w,
      )
  finish-save {m = asynchronous m} (threaded h) step w idle = (
    record w { tasks = w.tasks ++ (m, step) ∷ [] },
    refl,
    ap
          (λ ts.
            (run_tasks t (ts ++ (m, step) ∷ []) (record w { tasks = [] })).files
              (saved_path m step))
          idle
        ∙ run-IsDirect h step (record w { tasks = [] }),
  )
  finish-save (around h) step w idle = finish-save h step w idle

  -- The two conversions of the compression wrapper in turn.
  restore-compress :
      ((x : T) → t.is_float32 x ≡ true → t.is_float16 (t.half x) ≡ true)
      → (x : T) → restore t (compress t x) ≡ rounded x
  restore-compress halves x = ground (arith, halves x)

  restored-on_values :
      ((x : T) → t.is_float32 x ≡ true → t.is_float16 (t.half x) ≡ true)
      → (d : Dict T) → on_values t (restore t) (on_values t (compress t) d) ≡ on_values t rounded d
  restored-on_values halves [] = refl
  restored-on_values halves ((k, x) ∷ d) =
      ap (λ y. (k, y) ∷ on_values t (restore t) (on_values t (compress t) d))
        (restore-compress halves x)
      ∙ ap (λ rest. (k, rounded x) ∷ rest) (restored-on_values halves d)

  load-IsDirect :
      ((x : T) → t.is_float32 x ≡ true → t.is_float16 (t.half x) ≡ true)
      → {m : Manager} (h : IsDirect m) (path : List ℕ) (w : World T O C) (c : Checkpoint T O C)
        (d params : Dict T) (optimizer : Option O) (scheduler : Option C)
      → w.files path ≡ some (record c { model_state = stored m d })
      → load t m path w params optimizer scheduler
        ≡ load_state t (record c { model_state = kept m d }) params optimizer scheduler
  unfolding load
  load-IsDirect halves (base dir) path w c d params optimizer scheduler found =
      rw (load, found) refl
  load-IsDirect halves (compressed dir) path w c d params optimizer scheduler found =
      rw (load, found)
        (ap (λ e. load_state t (record c { model_state = e }) params optimizer scheduler)
          (restored-on_values halves d))
  load-IsDirect halves (shard dir) path w c d params optimizer scheduler found =
      rw (load, found) refl
  load-IsDirect halves (wrapped h) path w c d params optimizer scheduler found =
      load-IsDirect halves h path w c d params optimizer scheduler found

  load-IsUsable :
      ((x : T) → t.is_float32 x ≡ true → t.is_float16 (t.half x) ≡ true)
      → {m : Manager} (h : IsUsable m) (path : List ℕ) (w : World T O C) (c : Checkpoint T O C)
        (d params : Dict T) (optimizer : Option O) (scheduler : Option C)
      → w.files path ≡ some (record c { model_state = stored m d })
      → load t m path w params optimizer scheduler
        ≡ load_state t (record c { model_state = kept m d }) params optimizer scheduler
  unfolding load
  load-IsUsable halves (direct h) path w c d params optimizer scheduler found =
      load-IsDirect halves h path w c d params optimizer scheduler found
  load-IsUsable halves (threaded h) path w c d params optimizer scheduler found =
      load-IsDirect halves h path w c d params optimizer scheduler found
  load-IsUsable halves (around h) path w c d params optimizer scheduler found =
      load-IsUsable halves h path w c d params optimizer scheduler found

  -- What is saved is what is loaded. A manager is the base manager, or the compression or the sharded
  -- wrapper around it, with decorators around that, and it may be, around all of them but further
  -- decorators, the asynchronous wrapper; no thread is waiting. Its `save` returns, and when the
  -- thread that it may have started has run, with no training in between, its `load` of the path that
  -- it saved to does what loading the state at the save does: the step, the optimizer and the
  -- scheduler, and the model, in which the compression wrapper has rounded the tensors of 32 bits to
  -- 16. `half` of a tensor of 32 bits has 16.
  pub load-save :
      ((x : T) → t.is_float32 x ≡ true → t.is_float16 (t.half x) ≡ true)
      → {m : Manager} (h : IsUsable m) (step : ℕ) (w : World T O C) (params : Dict T)
        (optimizer : Option O) (scheduler : Option C)
      → w.tasks ≡ []
      → (saved : World T O C) × (save t m step w ≡ ok saved)
        × (load t m (saved_path m step) (finish t saved) params optimizer scheduler
            ≡ load_state t (state step (kept m w.params) w) params optimizer scheduler)
  load-save halves {m = m} h step w params optimizer scheduler idle =
      let (saved, returns, found) = finish-save h step w idle in
      (
        saved,
        returns,
        load-IsUsable halves h (saved_path m step) (finish t saved)
            (state step (stored m w.params) w) w.params params optimizer scheduler found,
      )
