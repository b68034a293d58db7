-- ===== src/Train/Start.antt =====
-- `main` of src/train/train.py: the validation of its arguments, and the number of checkpoints that
-- it announces.
pub mod Validation
use ca_project.Common.{ℕ, ◌/◌, Bool, not, ltb, ◌||◌, Result, ok, value_error, check, ◌>>=◌, ◌>>◌}
use ca_project.Common.Int.{ℤ, pos, negsuc, pos_part, is_negative, is_zero}

-- what the training is built from
pub record Plan : Type 0 where
  pub checkpoint_interval : ℕ
  pub total_steps : ℕ
  pub warmup_steps : ℕ
  pub total_epochs : ℕ

-- `main`, up to the setup; past the checks no number is negative
unfoldable pub plan : ℤ → ℤ → ℤ → Result Plan
plan checkpoint_interval total_steps warmup_steps = do
  check (not (is_negative checkpoint_interval || is_zero checkpoint_interval)) value_error
  check (not (is_negative total_steps || is_zero total_steps)) value_error
  check (not (is_negative warmup_steps)) value_error
  check (not (ltb (pos_part total_steps) (pos_part warmup_steps))) value_error
  check (not (ltb (pos_part total_steps) (pos_part checkpoint_interval))) value_error
  ok (record {
    checkpoint_interval = pos_part checkpoint_interval;
    total_steps = pos_part total_steps;
    warmup_steps = pos_part warmup_steps;
    total_epochs = pos_part total_steps / pos_part checkpoint_interval;
  })
