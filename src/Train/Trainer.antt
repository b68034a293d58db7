-- ===== src/Train/Trainer.antt =====
-- `Trainer.train` of src/train/trainer.py. A batch is a `B`; `S` is the model with its optimizer and
-- scheduler, what `self.checkpoint` keeps included. What one batch does to it, and what
-- `checkpoint.save` does, which may raise, are parameters. The profiler and the messages are not
-- modelled.
pub mod Runs
pub mod Saves
use ca_project.Common.{
  ℕ, zero, suc, ◌%◌, Bool, true, false, not, List, [], ◌∷◌, ◌==◌, ltb, leb, if◌then◌else◌, Result,
  ok, raise, zero_division_error, Option, none, some, check, ◌>>=◌, ◌>>◌,
}

-- The variables of the loop, and the steps at which a checkpoint has been saved, the newest first.
pub record Training (S : Type 0) : Type 0 where
  pub step : ℕ
  pub state : S
  pub saved : List ℕ

module _ {B S : Type 0} (max_steps checkpoint_interval : ℕ) (learn : B → S → S)
    (save : ℕ → S → Result S) where
  -- `if step % self.checkpoint_interval == 0`, with the save
  unfoldable pub save_if_due : Training S → Result (Training S)
  save_if_due t =
      if checkpoint_interval == 0
      then raise zero_division_error
      else (if t.step % checkpoint_interval == 0
          then (save t.step t.state >>= λ s. ok (record t { state = s; saved = t.step ∷ t.saved }))
          else ok t)

  -- one batch, up to the test of `max_steps`
  unfoldable pub train_batch : B → Training S → Result (Training S)
  train_batch b t = save_if_due (record t { step = suc t.step; state = learn b t.state })

  -- `for batch in self.dataloader`, with its `break`
  unfoldable pub train_batches : List B → Training S → Result (Training S)
  train_batches [] t = ok t
  train_batches (b ∷ bs) t =
      train_batch b t >>= λ t'. if leb max_steps t'.step then ok t' else train_batches bs t'

  -- `while step < max_steps`, for at most `fuel` runs through the data; `none` is the state of a loop
  -- that goes on
  unfoldable pub train_epochs : ℕ → List B → Training S → Option (Result (Training S))
  train_epochs zero bs t = if ltb t.step max_steps then none else some (ok t)
  train_epochs (suc fuel) bs t =
      if ltb t.step max_steps
      then (elim (train_batches bs t) [
        | raise e ↦ some (raise e)
        | ok t' ↦ train_epochs fuel bs t'
      ])
      else some (ok t)

  -- `train(max_steps)`
  abbrev pub train : ℕ → List B → S → Option (Result (Training S))
  train fuel bs state = train_epochs fuel bs (record { step = 0; state = state; saved = [] })
