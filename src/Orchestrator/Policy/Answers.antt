-- ===== src/Orchestrator/Policy/Answers.antt =====
-- The two answers that a policy of src/orchestrator/scheduler.py with a bandwidth gives to a worker
-- that is registered: HOLD, or a rate that is not negative.
use mathlib.Core.Path.{subst}
use ca_project.Common.{
  ℕ, String, ◌≡◌, ◌<◌, refl, true, ◌&&◌, ◌⊎◌, inl, inr, some, map, length, ok, arith, Bool-cases,
}
use ca_project.Common.Dict.{Dict, get}
use ca_project.Float.{Float, of_nat, nought, ◌≼◌, sum}
use ca_project.Float.Laws.{IsOrdered}
use ca_project.Float.Folds.{le_of_lt}
use ca_project.Orchestrator.Cluster.{WorkerState}
use ca_project.Orchestrator.Policy.{
  Policy, no_limit, fixed_rate, uniform_fair_share, active_fair_share, static_priority,
  age_priority, epoch_priority, on_hold, flush, is_active, active_of, decide,
}
use ca_project.Orchestrator.Policy.Weights.{active_of-cons, sum_active-pos}
use ca_project.Orchestrator.Policy.Decisions.{
  IsConfigured, holds_idle, is_idle, weight, rate, length_pos, weight-pos, decide-idle,
  decide-flush,
}
use ca_project.Orchestrator.Policy.Allocation.{bandwidth}

module _ {F : Type 0} ⦃o : Float F⦄ (laws : IsOrdered F) (now : F) (workers : Dict (WorkerState F))
    (k : String) (w : WorkerState F) (found : get k workers ≡ some w) where
  same_bandwidth : (b pfs : F) → some b ≡ some pfs → nought ≼ pfs → nought ≼ b
  same_bandwidth b pfs e h = let same : pfs ≡ b = cc in subst (λ y. nought ≼ y) same h

  some_active : is_active w ≡ true → 0 < length (active_of workers)
  some_active active =
      let (v, vs, e) = active_of-cons k workers w found active in rw e (omega arith)

  equal-nonneg : (b : F) (n : ℕ) → 0 < n → nought ≼ b → nought ≼ o.div b (of_nat n)
  equal-nonneg b n h k = laws.div_nonneg b _ k (laws.decimal_pos n 0 h)

  proportional-nonneg :
      (p : Policy F) (b : F)
      → IsConfigured p
      → is_active w ≡ true
      → nought ≼ b
      → nought
        ≼ o.div
            (o.mul b (weight p now workers w))
            (sum (map (weight p now workers) (active_of workers)))
  proportional-nonneg p b c active h =
      laws.div_nonneg _ _
        (laws.mul_nonneg _ _ h (le_of_lt laws _ _ (weight-pos laws p c now workers w)))
        (sum_active-pos laws (weight p now workers) (weight-pos laws p c now workers) k workers w
          found active)

  rate-nonneg :
      (p : Policy F) (pfs : F)
      → IsConfigured p
      → bandwidth p ≡ some pfs
      → nought ≼ pfs
      → (holds_idle p ≡ true → is_active w ≡ true)
      → nought ≼ rate p now workers w
  rate-nonneg no_limit pfs c e h active = cc
  rate-nonneg (fixed_rate r) pfs c e h active = cc
  rate-nonneg (uniform_fair_share b) pfs c e h active =
      equal-nonneg b _ (length_pos k workers found) (same_bandwidth b pfs e h)
  rate-nonneg (active_fair_share b) pfs c e h active =
      equal-nonneg b _ (some_active (active refl)) (same_bandwidth b pfs e h)
  rate-nonneg (static_priority b q d) pfs c e h active =
      proportional-nonneg (static_priority b q d) b c (active refl) (same_bandwidth b pfs e h)
  rate-nonneg (age_priority b x y) pfs c e h active =
      proportional-nonneg (age_priority b x y) b c (active refl) (same_bandwidth b pfs e h)
  rate-nonneg (epoch_priority b f) pfs c e h active =
      proportional-nonneg (epoch_priority b f) b c (active refl) (same_bandwidth b pfs e h)

  pub answer_cases :
      (p : Policy F) (pfs : F)
      → IsConfigured p
      → bandwidth p ≡ some pfs
      → nought ≼ pfs
      → w.worker_id ≡ k
      → (decide p now k workers ≡ ok on_hold)
        ⊎ ((x : F) × (decide p now k workers ≡ ok (flush x)) × (nought ≼ x))
  answer_cases p pfs c e h named = elim (Bool-cases (holds_idle p && is_idle (some w))) [
    | inl idle ↦ inl (decide-idle laws now k workers p (ground arith) (rw found (ground arith)))
    | inr busy ↦ inr (
      rate p now workers w,
      decide-flush laws now k workers w found p c named busy,
      rate-nonneg p pfs c e h (λ holds. ground (arith, laws.lt-eq-not-le nought w.checkpoint_size)),
    )
  ]
