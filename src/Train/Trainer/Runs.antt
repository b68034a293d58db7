-- ===== src/Train/Trainer/Runs.antt =====
-- How the loop of src/train/trainer.py runs on to the end, if each batch returns.
use ca_project.Common.{
  ℕ, zero, suc, ◌+◌, ◌≤◌, ◌<◌, ◌≡◌, refl, true, List, [], ◌∷◌, length, ltb, leb, if◌then◌else◌,
  Result, ok, raise, ◌>>=◌, some, Bool-cases, inl, inr, arith, ◌⊎◌,
}
use ca_project.Train.Trainer.{Training, train_batch, train_batches, train_epochs, train}

module _ {B S : Type 0} (max_steps k : ℕ) (learn : B → S → S) (save : ℕ → S → Result S)
    (Good : Training S → Type 0) where
  -- A batch before the end returns, one step on, and keeps what is good.
  abbrev pub Returns : Result (Training S) → ℕ → Type 0
  Returns (raise e) n = ⊥
  Returns (ok u) n = Good u × (u.step ≡ suc n)

  -- A stretch of the loop that began at step `m` returns, after `n` batches or at the end.
  abbrev Advances : ℕ → ℕ → Result (Training S) → Type 0
  Advances n m (raise e) = ⊥
  Advances n m (ok t) = Good t × (t.step ≤ max_steps) × ((t.step ≡ max_steps) ⊎ (m + n ≤ t.step))

  module _
      (batch : (b : B) (t : Training S)
        → t.step < max_steps
        → Good t
        → Returns (train_batch max_steps k learn save b t) t.step) where
    batches-Advances :
        (bs : List B) (t : Training S)
        → t.step < max_steps
        → Good t
        → Advances (length bs) t.step (train_batches max_steps k learn save bs t)
    unfolding train_batches
    batches-Advances [] t before h = (h, omega arith, inr (omega arith))
    batches-Advances (b ∷ bs) t before h =
        go (train_batch max_steps k learn save b t) (batch b t before h)
          (λ u. batches-Advances bs u)
      where
        later :
            (r : Result (Training S)) (m : ℕ)
            → Advances (length bs) m r
            → t.step < m
            → Advances (length (b ∷ bs)) t.step r
        later (raise e) m bad on = bad
        later (ok v) m (good, low, far) on = (good, low, ground arith)

        go :
            (r : Result (Training S))
            → Returns r t.step
            → ((u : Training S)
                → u.step < max_steps
                → Good u
                → Advances (length bs) u.step (train_batches max_steps k learn save bs u))
            → Advances (length (b ∷ bs)) t.step (
                r >>= λ u.
                if leb max_steps u.step then ok u else train_batches max_steps k learn save bs u)
        go (raise e) bad rest = bad
        go (ok u) (good, on) rest = elim (Bool-cases (leb max_steps u.step)) [
          | inl at_end ↦ rw at_end (good, omega arith, inl (ground arith))
          | inr more ↦ rw more (
              later (train_batches max_steps k learn save bs u) u.step (rest u (ground arith) good)
                (omega arith))
        ]

    epochs-End :
        (fuel : ℕ) (bs : List B) (t : Training S)
        → 0 < length bs
        → max_steps ≤ fuel + t.step
        → t.step ≤ max_steps
        → Good t
        → (u : Training S) × (train_epochs max_steps k learn save fuel bs t ≡ some (ok u))
          × (u.step ≡ max_steps)
          × Good u
    unfolding train_epochs
    epochs-End zero bs t some_data enough low h = (t, ground arith, omega (arith, enough, low), h)
    epochs-End (suc fuel) bs t some_data enough low h = elim (Bool-cases (ltb t.step max_steps)) [
      | inr at_end ↦ (t, rw (at_end, train_epochs) refl, ground arith, h)
      | inl before ↦
          go before (train_batches max_steps k learn save bs t) refl
            (batches-Advances bs t (ground arith) h) (λ u. epochs-End fuel bs u some_data)
    ]
      where
        go :
            ltb t.step max_steps ≡ true
            → (r : Result (Training S)) → train_batches max_steps k learn save bs t ≡ r
            → Advances (length bs) t.step r
            → ((u : Training S)
                → max_steps ≤ fuel + u.step
                → u.step ≤ max_steps
                → Good u
                → (v : Training S) × (train_epochs max_steps k learn save fuel bs u ≡ some (ok v))
                  × (v.step ≡ max_steps)
                  × Good v)
            → (u : Training S) × (train_epochs max_steps k learn save (suc fuel) bs t ≡ some (ok u))
              × (u.step ≡ max_steps)
              × Good u
        go before (raise e) same bad rest = absurd bad
        go before (ok u) same (good, low_u, far) rest =
            let (v, returns, ends, kept) = rest u (ground arith) low_u good in
            (v, rw (before, train_epochs, same) returns, ends, kept)

    -- A training over some data reaches its last step and keeps what is good.
    pub train-End :
        (bs : List B) (state : S)
        → 0 < length bs
        → Good (record { step = 0; state = state; saved = [] })
        → (u : Training S) × (train max_steps k learn save max_steps bs state ≡ some (ok u))
          × (u.step ≡ max_steps)
          × Good u
    train-End bs state some_data h =
        epochs-End max_steps bs (record { step = 0; state = state; saved = [] }) some_data
          (omega arith) (omega arith) h
