-- ===== src/Tests/Training.antt =====
-- Concrete runs for src/train/trainer.py.
use ca_project.Common.{ℕ, ◌+◌, ◌/◌, [], ◌∷◌, length, Result, ok, some, ◌≡◌, refl, arith}
use ca_project.Train.Trainer.{Training, train}
use ca_project.Train.Trainer.Saves.{multiples, train_saves}

abbrev learn : ℕ → ℕ → ℕ
learn b s = b + s

abbrev keep : ℕ → ℕ → Result ℕ
keep n s = ok s

train_saves_example :
    (u : Training ℕ) × (train 5 2 learn keep 5 (3 ∷ []) 0 ≡ some (ok u))
    × (u.step ≡ 5)
    × (u.saved ≡ multiples 2 5)
    × (length u.saved ≡ 5 / 2)
train_saves_example =
    train_saves 5 2 learn keep (omega arith) (λ n s. (s, refl)) (3 ∷ []) 0 (omega arith)
