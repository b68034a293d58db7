-- ===== src/Migrater/TokenBucket/Ends.antt =====
-- The loop ends.
use mathlib.Core.Path.{subst}
use native.Mathlib.Nat.{mul-le-mul_right, mul-le-mul}
use ca_project.Common.{
  ℕ, suc, ◌+◌, ◌-◌, ◌*◌, ◌≤◌, ◌<◌, ◌≡◌, refl, ap, sym, Bool, true, false, List, [], ◌∷◌, length,
  take, drop, arith, length-drop, length-take, ok, lt→ltb,
}
use ca_project.Common.Int.{ℤ, pos_part, is_negative}
use ca_project.Migrater.TokenBucket.Steps.{
  maybe_report-IsReported, raises, breaks, pauses, starves, transfers, step_case,
}
use ca_project.Migrater.TokenBucket.{
  Settings, Round, Copy, Outcome, running, finished, failed, refill, capacity, transfer, starved,
  step, copy_loop, Files, start, prepare, token_bucket_copy,
}
use ca_project.Migrater.TokenBucket.Exact.{Holds, copy_exact}

module _ (p : Settings) where
  -- At each round the clock has moved on, the rate is above zero, and the disk works.
  abbrev pub AreTimely : ℕ → List Round → Type 0
  AreTimely last [] = Unit
  AreTimely last (r ∷ rs) =
      (last < r.now) × (0 < pos_part r.rate) × (r.disk ≡ true) × AreTimely r.now rs

  -- the tokens of a full chunk
  abbrev pub full : ℕ
  full = p.chunk_size * p.hz

  -- what is left to do, in rounds at most
  abbrev pub left : Copy → ℕ
  left c = length c.src * (full + 1) + (full - c.tokens)

  IsCloser : Round → Copy → Copy → Type 0
  IsCloser r c d = (left d < left c) × (d.last ≡ r.now)

  full-le-capacity : (rate : ℕ) → full ≤ capacity p rate
  full-le-capacity rate = mul-le-mul_right p.hz (omega arith)

  gain : (a b rate : ℕ) → a < b → 0 < rate → 1 ≤ (b - a) * rate
  gain a b rate h k =
      let product : 1 * 1 ≤ (b - a) * rate = mul-le-mul {n₁ = 1} (omega arith) k in
      omega (arith, product)

  starved-IsCloser :
      (rate : ℕ) (r : Round) (c : Copy)
      → c.last < r.now
      → 0 < rate
      → refill p rate r c < full
      → IsCloser r c (starved p rate (refill p rate r c) r c)
  unfolding starved IsCloser
  starved-IsCloser rate r c tick positive few =
      let same =
        maybe_report-IsReported p false r (record c { last = r.now; tokens = refill p rate r c }) in
      (
        rw (same.src, same.tokens)
            (omega (arith, full-le-capacity rate, gain c.last r.now rate tick positive)),
        same.last,
      )

  fewer : (n m : ℕ) → n < m → n * (full + 1) + (full + 1) ≤ m * (full + 1)
  fewer n m h = omega (arith, mul-le-mul_right {m = suc n} {n = m} (full + 1) h)

  transfer-IsCloser :
      (tokens : ℕ) (r : Round) (c : Copy) (block : List ℕ)
      → block ≡ take p.chunk_size c.src
      → 0 < p.chunk_size
      → Holds (IsCloser r c) (λ d. Unit {0}) (transfer p tokens r c block)
  unfolding transfer IsCloser
  transfer-IsCloser tokens r c [] e positive = tt
  transfer-IsCloser tokens r c (b ∷ bs) e positive =
      let n = length (drop p.chunk_size c.src) in
      let same = maybe_report-IsReported p false r _ in
      let shorter : n < length c.src =
        omega
          (arith, ap length e, length-take p.chunk_size c.src, length-drop p.chunk_size c.src) in
      (rw (same.src, same.tokens) (omega (arith, fewer n (length c.src) shorter)), same.last)

  -- A timely round ends the loop or brings it closer to the end.
  data Advance (r : Round) (c : Copy) : Type 0 where
    ends : (d : Copy) → step p r c ≡ finished d → Advance r c
    goes_on : (d : Copy) → step p r c ≡ running d → IsCloser r c d → Advance r c

  advance :
      (r : Round) (c : Copy)
      → 0 < p.chunk_size
      → c.last < r.now
      → 0 < pos_part r.rate
      → r.disk ≡ true
      → Advance r c
  unfolding transfer
  advance r c positive tick moving works = elim (step_case p r c) [
    | raises n e q ↦ absurd (omega (arith, ap pos_part e))
    | breaks n e bad q ↦ cc
    | pauses e q ↦ absurd (omega (arith, ap pos_part e))
    | starves n e few q ↦ goes_on _ q (starved-IsCloser (suc n) r c tick (omega arith) few)
    | transfers n e many q ↦
        go (transfer p (refill p (suc n) r c) r c (take p.chunk_size c.src)) q
          (never_fails (refill p (suc n) r c) (take p.chunk_size c.src))
          (transfer-IsCloser (refill p (suc n) r c) r c (take p.chunk_size c.src) refl positive)
  ]
    where
      IsFailure : Outcome → Bool
      IsFailure (failed e) = true
      IsFailure _ = false

      never_fails : (tokens : ℕ) (block : List ℕ) → IsFailure (transfer p tokens r c block) ≡ false
      never_fails tokens [] = refl
      never_fails tokens (b ∷ bs) = refl

      go :
          (o : Outcome)
          → step p r c ≡ o
          → IsFailure o ≡ false
          → Holds (IsCloser r c) (λ d. Unit {0}) o
          → Advance r c
      go (running d) q ok_step k = goes_on d q k
      go (finished d) q ok_step k = ends d q
      go (failed e) q ok_step k = cc

  pub loop_ends :
      (rs : List Round) (c : Copy)
      → 0 < p.chunk_size
      → AreTimely c.last rs
      → left c < length rs
      → (d : Copy) × (copy_loop p rs c ≡ finished d)
  unfolding copy_loop IsCloser
  loop_ends [] c positive timely h = absurd (omega arith)
  loop_ends (r ∷ rs) c positive timely h = elim (advance r c positive timely.0 timely.1 timely.2) [
    | ends d q ↦ (d, rw (q, copy_loop))
    | goes_on d q k ↦
        let (e, done) =
          loop_ends rs d positive (subst (λ t. AreTimely t rs) (sym k.1) timely.3)
            (omega (arith, k.0)) in
        (e, rw (q, copy_loop) done)
  ]

  -- A copy of files that open returns, with the target equal to the source, if in each round the
  -- clock has moved on, the rate is above zero and no reading, writing or flushing fails, and there
  -- are enough rounds: for each byte and once more, as many as the tokens of a chunk. The first rate
  -- is not negative, and a chunk is not empty.
  pub copy_completes :
      (f : Files) (rate : ℤ) (copy_start last : ℕ) (rs : List Round)
      → (f.is_file ≡ true) × (f.readable ≡ true) × (f.writable ≡ true)
      → is_negative rate ≡ false
      → 0 < p.chunk_size
      → AreTimely last rs
      → length f.content * (full + 1) + full < length rs
      → (d : Copy) × (token_bucket_copy p f rate copy_start last rs ≡ finished d)
        × (d.dst ≡ f.content)
  unfolding token_bucket_copy
  copy_completes f rate copy_start last rs opens sign positive timely enough =
      let begun : prepare p f rate copy_start last ≡ ok (start f.content copy_start last) =
        unfold prepare in rw (opens.0, opens.1, opens.2, sign, lt→ltb 0 p.chunk_size positive) in
      let (d, done) =
        loop_ends rs (start f.content copy_start last) positive timely (omega arith) in
      let returned : token_bucket_copy p f rate copy_start last rs ≡ finished d = rw (begun) done in
      (d, returned, (subst (Holds _ _) returned (copy_exact p f rate copy_start last rs)).0)
