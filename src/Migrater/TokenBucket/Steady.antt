-- ===== src/Migrater/TokenBucket/Steady.antt =====
-- Copies of src/migrater/token_bucket.py while the throughput provider returns one rate.
use mathlib.Core.Path.{subst}
use ca_project.Common.{
  ℕ, Bool, true, false, take, suc, ◌+◌, ◌-◌, ◌*◌, ◌≤◌, ◌≡◌, refl, ◌⊎◌, inl, inr, List, [], ◌∷◌, ap,
  sym, arith,
}
use ca_project.Common.Int.{ℤ, pos, pos_part}
use ca_project.Migrater.TokenBucket.{
  Settings, Round, Copy, Outcome, running, finished, failed, refill, transfer, step, copy_loop,
}
use ca_project.Migrater.TokenBucket.Steps.{raises, breaks, pauses, starves, transfers, step_case}
use ca_project.Migrater.TokenBucket.Exact.{Holds}
use ca_project.Migrater.TokenBucket.Rate.{allowance, spent, IsEarned, step-IsEarned, loop_rate}

-- The clock goes on from `last` to at most `until`, each round reads the rate `z`, and no reading or
-- writing fails.
abbrev pub AreAt : ℤ → ℕ → ℕ → List Round → Type 0
AreAt z until last [] = last ≤ until
AreAt z until last (r ∷ rs) =
    (last ≤ r.now) × (r.rate ≡ z) × (r.disk ≡ true) × AreAt z until r.now rs

-- the copy goes on or is complete, in the state `d`
abbrev pub Reaches : Outcome → Copy → Type 0
Reaches out d = (out ≡ running d) ⊎ (out ≡ finished d)

abbrev fails : Outcome → Bool
fails (failed e) = true
fails _ = false

-- the state in which an outcome leaves a copy that was in the state `c`
abbrev pub left_by : Copy → Outcome → Copy
left_by c (running d) = d
left_by c (finished d) = d
left_by c (failed e) = c

until-le : (z : ℤ) (until last : ℕ) (rs : List Round) → AreAt z until last rs → last ≤ until
until-le z until last [] h = h
until-le z until last (r ∷ rs) h = omega (arith, h.0, until-le z until r.now rs h.3)

split_time : (a b c n : ℕ) → a ≤ b → b ≤ c → (b - a) * n + (c - b) * n ≡ (c - a) * n
split_time a b c n h k = grind arith

module _ (p : Settings) (until : ℕ) where
  pub allowance-le :
      (z : ℤ) (last : ℕ) (rs : List Round)
      → AreAt z until last rs
      → allowance p last rs ≤ (until - last) * pos_part z
  allowance-le z last [] h = omega arith
  allowance-le z last (r ∷ rs) h = omega (
    arith,
    ap pos_part h.1,
    ap (λ n. (r.now - last) * n) (ap pos_part h.1),
    split_time last r.now until (pos_part z) h.0 (until-le z until r.now rs h.3),
    allowance-le z r.now rs h.3,
  )

  transfer-fails :
      (tokens : ℕ) (r : Round) (c : Copy) (block : List ℕ)
      → fails (transfer p tokens r c block) ≡ false
  unfolding transfer
  transfer-fails tokens r c [] = refl
  transfer-fails tokens r c (b ∷ bs) = refl

  step-fails :
      (r : Round) (c : Copy) (n : ℕ) → r.rate ≡ pos n → r.disk ≡ true → fails (step p r c) ≡ false
  step-fails r c n e works = elim (step_case p r c) [
    | raises m q s ↦ cc
    | breaks m q bad s ↦ cc
    | pauses q s ↦ rw s
    | starves m q few s ↦ rw s
    | transfers m q many s ↦
        rw s (transfer-fails (refill p (suc m) r c) r c (take p.chunk_size c.src))
  ]

  -- A copy whose rates are not negative does not fail.
  pub loop-Reaches :
      (n : ℕ) (rs : List Round) (c : Copy)
      → AreAt (pos n) until c.last rs
      → Reaches (copy_loop p rs c) (left_by c (copy_loop p rs c))
  unfolding copy_loop
  loop-Reaches n [] c h = inl refl
  loop-Reaches n (r ∷ rs) c h =
      go (step p r c) refl (step-fails r c n h.1 h.2) (step-IsEarned p r c)
        (λ d. loop-Reaches n rs d)
    where
      onward : (c d : Copy) (s : Outcome) → Reaches s (left_by d s) → Reaches s (left_by c s)
      onward c d (running x) k = inl refl
      onward c d (finished x) k = inr refl
      onward c d (failed x) (inl k) = cc
      onward c d (failed x) (inr k) = cc

      go :
          (s : Outcome)
          → step p r c ≡ s
          → fails (step p r c) ≡ false
          → Holds (IsEarned p (pos_part r.rate) r c) (IsEarned p (pos_part r.rate) r c) (step p r c)
          → ((d : Copy)
              → AreAt (pos n) until d.last rs
              → Reaches (copy_loop p rs d) (left_by d (copy_loop p rs d)))
          → Reaches (copy_loop p (r ∷ rs) c) (left_by c (copy_loop p (r ∷ rs) c))
      go (running d) e ok_step k rest =
          let earned : IsEarned p (pos_part r.rate) r c d =
            subst (Holds (IsEarned p (pos_part r.rate) r c) (IsEarned p (pos_part r.rate) r c)) e
              k in
          rw (e, copy_loop)
            (onward c d (copy_loop p rs d)
              (rest d (subst (λ t. AreAt (pos n) until t rs) (sym earned.last) h.3)))
      go (finished d) e ok_step k rest = rw (e, copy_loop) (inr refl)
      go (failed x) e ok_step k rest = cc

  -- While one rate holds, a copy goes on or is complete, and writes no more than the rate allows in
  -- the time, and the tokens that it starts with.
  pub loop_steady :
      (n : ℕ) (rs : List Round) (c : Copy)
      → AreAt (pos n) until c.last rs
      → Reaches (copy_loop p rs c) (left_by c (copy_loop p rs c))
        × (spent p (left_by c (copy_loop p rs c)) ≤ spent p c + (until - c.last) * n)
  loop_steady n rs c h =
      let reaches : Reaches (copy_loop p rs c) (left_by c (copy_loop p rs c)) =
        loop-Reaches n rs c h in
      (
        reaches,
        paid (copy_loop p rs c) reaches (loop_rate p rs c) (allowance-le (pos n) c.last rs h),
      )
    where
      paid :
          (s : Outcome)
          → Reaches s (left_by c s)
          → Holds
              (λ d. spent p d ≤ spent p c + allowance p c.last rs)
              (λ d. spent p d ≤ spent p c + allowance p c.last rs)
              s
          → allowance p c.last rs ≤ (until - c.last) * n
          → spent p (left_by c s) ≤ spent p c + (until - c.last) * n
      paid (running d) k paid_for small = omega arith
      paid (finished d) k paid_for small = omega arith
      paid (failed e) k paid_for small = omega arith
