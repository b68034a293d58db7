-- ===== src/Train/Trainer/Saves.antt =====
-- At which steps the loop of src/train/trainer.py saves, and how often.
use native.Mathlib.Nat.{
  le-div_iff_mul-le, div-lt_iff_lt-mul, div-add-mod', mod-lt, suc-mod, mod_self, mod-eq_of_lt,
}
use ca_project.Common.{
  ℕ, zero, suc, ◌*◌, ◌/◌, ◌%◌, ◌≤◌, ◌<◌, ◌≡◌, refl, ap, ◌∙◌, List, [], ◌∷◌, length, ◌==◌,
  if◌then◌else◌, Result, ok, some, inl, inr, arith, ◌⊎◌,
}
use ca_project.Train.Trainer.Runs.{Returns, train-End}
use ca_project.Train.Trainer.{Training, save_if_due, train_batch, train}

-- the multiples of `k` from 1 to `n`, the largest first
unfoldable pub multiples : ℕ → ℕ → List ℕ
multiples k zero = []
multiples k (suc n) = let rest = multiples k n in if suc n % k == 0 then suc n ∷ rest else rest

div_between : (k n q : ℕ) → 0 < k → q * k ≤ n → n < suc q * k → n / k ≡ q
div_between k n q h low high = omega (
  arith,
  (le-div_iff_mul-le {k = k} {x = q} {y = n} h).1 low,
  (div-lt_iff_lt-mul {k = k} {x = n} {y = suc q} h).1 high,
)

div-suc_full : (k n : ℕ) → 0 < k → suc (n % k) ≡ k → suc n / k ≡ suc (n / k)
div-suc_full k n h full =
    div_between k (suc n) (suc (n / k)) h (omega (arith, div-add-mod' n k, full))
      (omega (arith, div-add-mod' n k, full, h))

div-suc_within : (k n : ℕ) → 0 < k → suc (n % k) < k → suc n / k ≡ n / k
div-suc_within k n h within =
    div_between k (suc n) (n / k) h (omega (arith, div-add-mod' n k))
      (omega (arith, div-add-mod' n k, within))

-- The quotient grows at the multiples.
pub div-suc : (k n : ℕ) → 0 < k → suc n / k ≡ (if suc n % k == 0 then suc (n / k) else n / k)
div-suc k n h = elim (cases (suc (n % k)) k (mod-lt n h)) [
  | inl full ↦
      let rest : suc n % k ≡ 0 = suc-mod n k ∙ ap (λ r. r % k) full ∙ mod_self k in
      rw rest (div-suc_full k n h full)
  | inr within ↦
      let rest : suc n % k ≡ suc (n % k) = suc-mod n k ∙ mod-eq_of_lt within in
      let quotient = div-suc_within k n h within in ground arith
]
  where
    cases : (a b : ℕ) → a ≤ b → (a ≡ b) ⊎ (a < b)
    cases a b le = ground arith

pub length-multiples : (k n : ℕ) → 0 < k → length (multiples k n) ≡ n / k
unfolding multiples
length-multiples k zero h = grind arith
length-multiples k (suc n) h = ground (arith, div-suc k n h, length-multiples k n h)

module _ {B S : Type 0} (max_steps k : ℕ) (learn : B → S → S) (save : ℕ → S → Result S)
    (positive : 0 < k) (saves : (n : ℕ) (s : S) → (s' : S) × (save n s ≡ ok s')) where
  -- The loop has saved at each multiple of the interval so far.
  abbrev AreSaved : Training S → Type 0
  AreSaved t = t.saved ≡ multiples k t.step

  batch-Returns :
      (b : B) (t : Training S)
      → t.step < max_steps
      → AreSaved t
      → Returns max_steps k learn save AreSaved (train_batch max_steps k learn save b t) t.step
  unfolding train_batch save_if_due multiples
  batch-Returns b t before h = let (s', e) = saves (suc t.step) (learn b t.state) in ground arith

  -- A training over some data returns after exactly `max_steps` batches, has saved a checkpoint at
  -- each multiple of the interval up to there and at no other step, and as often as
  -- `max_steps // checkpoint_interval`, which the checkpoint manager is told as `total_epochs`. The
  -- interval is above zero, every save returns, and as many runs through the data as steps suffice.
  pub train_saves :
      (bs : List B) (state : S)
      → 0 < length bs
      → (u : Training S) × (train max_steps k learn save max_steps bs state ≡ some (ok u))
        × (u.step ≡ max_steps)
        × (u.saved ≡ multiples k max_steps)
        × (length u.saved ≡ max_steps / k)
  unfolding multiples
  train_saves bs state some_data =
      let (u, returns, ends, saved) =
        train-End max_steps k learn save AreSaved batch-Returns bs state some_data refl in
      let all_saved : u.saved ≡ multiples k max_steps = saved ∙ ap (multiples k) ends in
      (u, returns, ends, all_saved, ap length all_saved ∙ length-multiples k max_steps positive)
