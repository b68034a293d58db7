-- ===== src/System/Bandwidth.antt =====
-- All copies together: the rates that src/orchestrator/scheduler.py grants, as
-- src/migrater/server.py takes them over, bound what the copies of src/migrater/token_bucket.py write.
use mathlib.Core.Path.{subst}
use native.Mathlib.Nat.{add-mul, mul-le-mul_right}
use ca_project.Common.{
  ℕ, String, ◌+◌, ◌-◌, ◌*◌, ◌≤◌, ◌≡◌, refl, ap, ◌⊎◌, inl, inr, some, List, [], ◌∷◌, map, length,
  All, All-map, Result, ok, raise, arith,
}
use ca_project.Common.Int.{ℤ, pos, pos_part}
use ca_project.Common.Dict.{Dict, get, IsDistinct, All-keys}
use ca_project.Float.{Float, nought, ◌≼◌}
use ca_project.Float.Laws.{IsOrdered}
use ca_project.Float.Rounding.{Rounds, Within, Within-below}
use ca_project.Float.Rounding.Shares.{exact_sum}
use ca_project.Protocol.{InstructionResponse}
use ca_project.Migrater.TokenBucket.{Settings, Round, Copy, Outcome, copy_loop}
use ca_project.Migrater.TokenBucket.Rate.{spent}
use ca_project.Migrater.TokenBucket.Steady.{AreAt, Reaches, left_by, loop_steady}
use ca_project.Migrater.Service.{Migrater, handle_instruction}
use ca_project.Orchestrator.Cluster.{WorkerState}
use ca_project.Orchestrator.Policy.{Policy, on_hold, flush, decide}
use ca_project.Orchestrator.Policy.Decisions.{IsConfigured}
use ca_project.Orchestrator.Policy.Allocation.{granted, bandwidth, total_granted-le-bandwidth}
use ca_project.Orchestrator.Policy.Answers.{answer_cases}

-- a number of each key of a dict, added up
unfoldable pub total {ℓ} : {V : Type ℓ} → (String → ℕ) → Dict V → ℕ
total f [] = 0
total f (e ∷ d) = f e.0 + total f d

total-bound {ℓ} :
    {V : Type ℓ} (f g h : String → ℕ) (t : ℕ) (d : Dict V)
    → All (λ e. f e.0 ≤ g e.0 + t * h e.0) d
    → total f d ≤ total g d + t * total h d
unfolding total
total-bound f g h t [] each = omega arith
total-bound f g h t (e ∷ d) each = grind (arith, each.0, total-bound f g h t d each.1)

-- Later and with other words for the ticks of a second, the bound is no smaller.
repaid :
    (b hz ticks tokens s n until last since : ℕ)
    → ticks ≡ hz
    → since ≤ last
    → b * ticks + tokens ≤ s + (until - last) * n
    → b * hz ≤ s + (until - since) * n
repaid b hz ticks tokens s n until last since e h k =
    let time : (until - last) * n ≤ (until - since) * n = mul-le-mul_right n (omega arith) in
    let same : b * ticks ≡ b * hz = ap (λ t. b * t) e in omega arith

-- How the copies of the workers go on when the orchestrator has answered from one snapshot: what
-- each copy and its migrater are before, and the rounds that follow.
pub record Fleet (F : Type 0) : Type 0 where
  pub hz : ℕ
  pub settings : String → Settings
  pub copies : String → Copy
  pub migraters : String → Migrater F
  pub rounds : String → List Round

module _ {F : Type 0} (f : Fleet F) where
  abbrev pub outcome : String → Outcome
  outcome k = copy_loop (f.settings k) (f.rounds k) (f.copies k)

  -- the copy of a worker at the end
  abbrev pub after : String → Copy
  after k = left_by (f.copies k) (outcome k)

module _ {F : Type 0} ⦃o : Float F⦄ where
  -- the migrater when it has handled the orchestrator's answer; an exception answers nothing
  abbrev pub after_answer : Result (InstructionResponse F) → Migrater F → Migrater F
  after_answer (ok i) m = handle_instruction i m
  after_answer (raise e) m = m

  total-units-le :
      {V : Type 0} (rounds : Rounds F) (f : String → ℕ) (g : String → F) (d : Dict V)
      → All (λ e. f e.0 * rounds.unit ≤ rounds.units (g e.0)) d
      → total f d * rounds.unit ≤ exact_sum rounds (map (λ e. g e.0) d)
  unfolding total exact_sum
  total-units-le rounds f g [] each = omega arith
  total-units-le rounds f g (e ∷ d) each =
      rw (add-mul (f e.0) (total f d) rounds.unit)
        (omega (arith, each.0, total-units-le rounds f g d each.1))

  -- the rate that the throughput provider of a worker returns from its answer on
  abbrev pub rate_after : Result (InstructionResponse F) → Migrater F → ℤ
  rate_after r m = (after_answer r m).current_rate

  rate_after-le :
      (rounds : Rounds F) (r : Result (InstructionResponse F)) (m : Migrater F)
      → (r ≡ ok on_hold → m.current_rate ≡ pos 0)
      → (r ≡ ok on_hold) ⊎ ((x : F) × (r ≡ ok (flush x)) × (nought ≼ x))
      → (rate_after r m ≡ pos (pos_part (rate_after r m)))
        × (pos_part (rate_after r m) * rounds.unit ≤ rounds.units (granted r))
  unfolding handle_instruction
  rate_after-le rounds r m held (inl e) = rw (e, held e) (refl, omega arith)
  rate_after-le rounds r m held (inr (x, e, h)) =
      let (n, floor, below) = rounds.trunc_floor x h in rw (e, floor) (refl, below)

  module _ (f : Fleet F) where
    module _ (p : Policy F) (now : F) (workers : Dict (WorkerState F)) where
      -- the rate that the throughput provider of a worker returns from its answer on
      abbrev rate_at : String → ℤ
      rate_at k = rate_after (decide p now k workers) (f.migraters k)

      -- Each copy reads the clock on from `since` to `until`, the ticks of one second are the same
      -- everywhere, each throughput provider returns the rate that its migrater has taken from the
      -- answer, no reading or writing fails, and a worker that is told to HOLD has none.
      pub record IsGoverned (since until : ℕ) : Type 0 where
        pub ticks : (k : String) → (f.settings k).hz ≡ f.hz
        pub begins : (k : String) → since ≤ (f.copies k).last
        pub governed : (k : String) → AreAt (rate_at k) until (f.copies k).last (f.rounds k)
        pub held :
            (k : String)
            → decide p now k workers ≡ ok on_hold
            → (f.migraters k).current_rate ≡ pos 0

      abbrev rate_of : String → ℕ
      rate_of k = pos_part (rate_at k)

      -- the copy of one worker: it does not fail, and it keeps to its rate
      unfoldable IsKept : Rounds F → ℕ → ℕ → String → Type 0
      IsKept rounds since until k =
          Reaches (outcome f k) (after f k)
          × ((after f k).bytes_copied * f.hz
              ≤ spent (f.settings k) (f.copies k) + (until - since) * rate_of k)
          × (rate_of k * rounds.unit ≤ rounds.units (granted (decide p now k workers)))

  module _ (laws : IsOrdered F) (rounds : Rounds F) where
    keeps :
        (f : Fleet F) (p : Policy F) (now : F) (workers : Dict (WorkerState F)) (pfs : F)
        (since until : ℕ)
        → IsConfigured p
        → bandwidth p ≡ some pfs
        → nought ≼ pfs
        → ((k : String) (w : WorkerState F) → get k workers ≡ some w → w.worker_id ≡ k)
        → IsGoverned f p now workers since until
        → (k : String) (w : WorkerState F) → get k workers ≡ some w
        → IsKept f p now workers rounds since until k
    unfolding IsKept
    keeps f p now workers pfs since until configured divides positive named h k w found =
        let (steady, below) =
          rate_after-le rounds (decide p now k workers) (f.migraters k) (h.held k) (
            answer_cases laws now workers k w found p pfs configured divides positive
              (named k w found)) in
        let (reaches, paid) =
          loop_steady (f.settings k) until (rate_of f p now workers k) (f.rounds k) (f.copies k)
            (subst (λ z. AreAt z until (f.copies k).last (f.rounds k)) steady (h.governed k)) in
        (reaches, repaid _ f.hz _ _ _ _ until _ since (h.ticks k) (h.begins k) paid, below)

    -- All copies together keep to the bandwidth that the policy divides. The orchestrator answers
    -- every worker of a snapshot of its registry, each migrater takes its rate over, and the copies
    -- go on at these rates. Where no reading or writing fails, no copy fails, and what all of them
    -- have written at the end is no more than a joint rate allows in the time, beside what they had
    -- written and the tokens that they held at the start. The joint rate exceeds the bandwidth by
    -- no more than the error of rounding: at most the factor (1 + 2^-53)^(n + 2) for n workers. A
    -- worker that is told to HOLD has no rate. The policy has passed its asserts, the bandwidth is
    -- not negative, no worker id stands twice and each state stands under its own id. The floats
    -- meet the laws of order, and each operation rounds its exact result once, as IEEE 754 has it
    -- where nothing overflows or is subnormal.
    pub fleet-le-bandwidth :
        (f : Fleet F) (p : Policy F) (now : F) (workers : Dict (WorkerState F)) (pfs : F)
        (since until : ℕ)
        → IsConfigured p
        → bandwidth p ≡ some pfs
        → nought ≼ pfs
        → IsDistinct workers
        → ((k : String) (w : WorkerState F) → get k workers ≡ some w → w.worker_id ≡ k)
        → IsGoverned f p now workers since until
        → All (λ e. Reaches (outcome f e.0) (after f e.0)) workers
          × ((joint : ℕ) × Within (length workers + 2) (joint * rounds.unit) (rounds.units pfs)
              × (total (λ k. (after f k).bytes_copied * f.hz) workers
                  ≤ total (λ k. spent (f.settings k) (f.copies k)) workers
                    + (until - since) * joint))
    unfolding IsKept
    fleet-le-bandwidth f p now workers pfs since until configured divides positive distinct named
          h =
        let kept =
          All-keys (IsKept f p now workers rounds since until) workers distinct
            (keeps f p now workers pfs since until configured divides positive named h) in
        let rates =
          total-units-le rounds (rate_of f p now workers) (λ k. granted (decide p now k workers))
            workers
            (All-map (λ e. IsKept f p now workers rounds since until e.0) _ (λ e k. k.2) workers
              kept) in
        (
          All-map (λ e. IsKept f p now workers rounds since until e.0) _ (λ e k. k.0) workers kept,
          (
            total (rate_of f p now workers) workers,
            Within-below _ _ _ _ rates (
                total_granted-le-bandwidth laws rounds p now pfs workers configured divides positive
                  distinct named),
            total-bound (λ k. (after f k).bytes_copied * f.hz)
                (λ k. spent (f.settings k) (f.copies k)) (rate_of f p now workers) (until - since)
                workers
                (All-map (λ e. IsKept f p now workers rounds since until e.0) _ (λ e k. k.1) workers
                  kept),
          ),
        )
