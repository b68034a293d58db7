-- ===== src/Migrater/TokenBucket/Rate.antt =====
-- How much may be written in how much time.
use mathlib.Core.Path.{subst}
use native.Mathlib.Nat.{mul-le-mul_right}
use ca_project.Common.{
  ℕ, suc, ◌+◌, ◌-◌, ◌*◌, ◌≤◌, ◌≡◌, refl, sym, ap, ◌∙◌, Bool, true, false, List, [], ◌∷◌, length,
  take, arith, length-take,
}
use ca_project.Common.Int.{pos_part}
use ca_project.Migrater.TokenBucket.Steps.{
  maybe_report-IsReported, raises, breaks, pauses, starves, transfers, step_case,
}
use ca_project.Migrater.TokenBucket.{
  Settings, Round, Copy, Outcome, running, finished, failed, refill, capacity, maybe_report,
  transfer, paused, starved, step, copy_loop,
}
use ca_project.Migrater.TokenBucket.Exact.{Holds}

module _ (p : Settings) where
  -- What the rates allow over the rounds, in the unit of `tokens`: each round, its rate for the
  -- time since the round before.
  abbrev pub allowance : ℕ → List Round → ℕ
  allowance last [] = 0
  allowance last (r ∷ rs) = (r.now - last) * pos_part r.rate + allowance r.now rs

  -- what has been written, and what may be written at once
  abbrev pub spent : Copy → ℕ
  spent c = c.bytes_copied * p.hz + c.tokens

  -- A round at `rate` earns no more than the rate for the time since the last round, and holds no
  -- more than the capacity.
  pub record IsEarned (rate : ℕ) (r : Round) (c d : Copy) : Type 0 where
    pub earned : spent d ≤ spent c + (r.now - c.last) * rate
    pub bounded : d.tokens ≤ capacity p rate
    pub last : d.last ≡ r.now

  -- the state that is reported on, then the state after the report
  report-IsEarned :
      (rate : ℕ) (r : Round) (c d : Copy) (force : Bool)
      → IsEarned rate r c d
      → IsEarned rate r c (maybe_report p force r d)
  report-IsEarned rate r c d force h =
      let same = maybe_report-IsReported p force r d in
      record {
        earned = rw (same.bytes_copied, same.tokens) h.earned;
        bounded = rw same.tokens h.bounded;
        last = same.last ∙ h.last;
      }

  abbrev refilled : ℕ → ℕ → Round → Copy → Copy
  refilled rate tokens r c = record c { last = r.now; tokens = tokens }

  refill-IsEarned :
      (rate : ℕ) (r : Round) (c : Copy) → IsEarned rate r c (refilled rate (refill p rate r c) r c)
  refill-IsEarned rate r c = record { earned = omega arith; bounded = omega arith; last = refl }

  length-block-le : (n : ℕ) (xs : List ℕ) → length (take n xs) * p.hz ≤ n * p.hz
  length-block-le n xs = mul-le-mul_right p.hz (omega (arith, length-take n xs))

  transfer-IsEarned :
      (rate : ℕ) (r : Round) (c : Copy) (block : List ℕ)
      → length block * p.hz ≤ p.chunk_size * p.hz
      → p.chunk_size * p.hz ≤ refill p rate r c
      → Holds (IsEarned rate r c) (IsEarned rate r c) (transfer p (refill p rate r c) r c block)
  unfolding transfer
  transfer-IsEarned rate r c [] small many =
      report-IsEarned rate r c (refilled rate (refill p rate r c) r c) true
        (refill-IsEarned rate r c)
  transfer-IsEarned rate r c (b ∷ bs) small many =
      let h = refill-IsEarned rate r c in
      report-IsEarned rate r c _ false
        (record { earned = omega arith; bounded = omega arith; last = refl })

  -- One round, whatever the throughput provider returns: the bytes that it writes and the tokens
  -- that it leaves come from the tokens before it and from its rate for the time since the round
  -- before; and it leaves no more tokens than the larger of one second's rate and one chunk.
  pub step-IsEarned :
      (r : Round) (c : Copy)
      → Holds (IsEarned (pos_part r.rate) r c) (IsEarned (pos_part r.rate) r c) (step p r c)
  unfolding paused starved
  step-IsEarned r c = elim (step_case p r c) [
    | raises n e q ↦ rw q tt
    | breaks n e bad q ↦ rw q tt
    | pauses e q ↦
        let h =
          report-IsEarned (pos_part r.rate) r c (record c { last = r.now; tokens = 0 }) true
            (record { earned = omega arith; bounded = omega arith; last = refl }) in
        rw q (record { earned = h.earned; bounded = h.bounded; last = h.last })
    | starves n e few q ↦
        let h =
          report-IsEarned (suc n) r c (refilled (suc n) (refill p (suc n) r c) r c) false
            (refill-IsEarned (suc n) r c) in
        rw q (
          subst (λ k. IsEarned k r c (starved p (suc n) (refill p (suc n) r c) r c))
            (sym (ap pos_part e))
            (record { earned = h.earned; bounded = h.bounded; last = h.last }))
    | transfers n e many q ↦ rw q (
        subst
          (λ k.
            Holds (IsEarned k r c) (IsEarned k r c)
              (transfer p (refill p (suc n) r c) r c (take p.chunk_size c.src)))
          (sym (ap pos_part e))
          (transfer-IsEarned (suc n) r c (take p.chunk_size c.src)
            (length-block-le p.chunk_size c.src) many))
  ]

  -- Over any rounds, from any state of the loop, the bytes written are covered by the tokens at
  -- the start and by what the rates allow over the rounds: the copy is never faster than the
  -- configured rates but for the burst that is in the bucket.
  pub loop_rate :
      (rs : List Round) (c : Copy)
      → Holds
          (λ d. spent d ≤ spent c + allowance c.last rs)
          (λ d. spent d ≤ spent c + allowance c.last rs)
          (copy_loop p rs c)
  unfolding copy_loop
  loop_rate [] c = omega arith
  loop_rate (r ∷ rs) c = go (step p r c) refl (step-IsEarned r c) (λ d. loop_rate rs d)
    where
      IsPaid : Copy → Type 0
      IsPaid d = spent d ≤ spent c + allowance c.last (r ∷ rs)

      onward :
          (d : Copy)
          → IsEarned (pos_part r.rate) r c d
          → (o : Outcome)
          → Holds
              (λ e. spent e ≤ spent d + allowance d.last rs)
              (λ e. spent e ≤ spent d + allowance d.last rs)
              o
          → Holds IsPaid IsPaid o
      onward d h (running e) k = omega (arith, h.earned, ap (λ t. allowance t rs) h.last)
      onward d h (finished e) k = omega (arith, h.earned, ap (λ t. allowance t rs) h.last)
      onward d h (failed e) k = tt

      go :
          (s : Outcome)
          → step p r c ≡ s
          → Holds (IsEarned (pos_part r.rate) r c) (IsEarned (pos_part r.rate) r c) s
          → ((d : Copy)
              → Holds
                  (λ e. spent e ≤ spent d + allowance d.last rs)
                  (λ e. spent e ≤ spent d + allowance d.last rs)
                  (copy_loop p rs d))
          → Holds IsPaid IsPaid (copy_loop p (r ∷ rs) c)
      go (running d) e k rest = rw (e, copy_loop) (onward d k (copy_loop p rs d) (rest d))
      go (finished d) e k rest = rw (e, copy_loop) (omega (arith, k.earned))
      go (failed x) e k rest = rw (e, copy_loop) tt
