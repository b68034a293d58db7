-- ===== src/Train/Start/Validation.antt =====
-- What the validation in src/train/train.py leaves.
use native.Mathlib.Nat.{le-div_iff_mul-le}
use ca_project.Common.{ℕ, ◌*◌, ◌/◌, ◌≤◌, ◌<◌, ◌≡◌, ok, arith}
use ca_project.Common.Int.{ℤ, pos, negsuc}
use ca_project.Train.Start.{Plan, plan}

-- The numbers of a plan fit: at least one checkpoint is announced, and none after the last step.
pub record IsFit (p : Plan) : Type 0 where
  pub interval_pos : 0 < p.checkpoint_interval
  pub interval-le-total : p.checkpoint_interval ≤ p.total_steps
  pub warmup-le-total : p.warmup_steps ≤ p.total_steps
  pub epochs_pos : 0 < p.total_epochs
  pub last-le-total : p.total_epochs * p.checkpoint_interval ≤ p.total_steps

fit :
    (i t w : ℕ)
    → 0 < i
    → i ≤ t
    → w ≤ t
    → IsFit (record {
      checkpoint_interval = i;
      total_steps = t;
      warmup_steps = w;
      total_epochs = t / i;
    })
fit i t w h le le' = record {
  interval_pos = h;
  interval-le-total = le;
  warmup-le-total = le';
  epochs_pos = (le-div_iff_mul-le {k = i} {x = 1} {y = t} h).1 (omega (arith, le));
  last-le-total = (le-div_iff_mul-le {k = i} {x = t / i} {y = t} h).0 (omega arith);
}

-- Whatever the command line holds, a training that starts has an interval above zero, no longer than
-- the training, a warm-up no longer than the training, and announces at least one checkpoint and
-- none after the last step.
pub plan-IsFit : (i t w : ℤ) (p : Plan) → plan i t w ≡ ok p → IsFit p
unfolding plan
plan-IsFit (pos i) (pos t) (pos w) p h = ground (arith, fit i t w)
plan-IsFit (negsuc i) t w p h = absurd (cc)
plan-IsFit (pos i) (negsuc t) w p h = absurd (ground arith)
plan-IsFit (pos i) (pos t) (negsuc w) p h = absurd (ground arith)
