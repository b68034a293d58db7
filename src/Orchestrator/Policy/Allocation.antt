-- ===== src/Orchestrator/Policy/Allocation.antt =====
-- The rates that a policy grants to the workers of one snapshot, added up.
use mathlib.Core.Path.{subst}
use ca_project.Common.{
  ℕ, ◌+◌, String, ◌≡◌, refl, ◌||◌, not, Option, none, some, map, length, if◌then◌else◌, Result, ok,
  raise, arith, Bool-cases, inl, inr,
}
use ca_project.Common.Dict.{Dict, get, values, IsDistinct, length-values, map-keys}
use ca_project.Float.{Float, of_nat, nought, ◌≼◌, sum}
use ca_project.Float.Laws.{IsOrdered}
use ca_project.Float.Rounding.{Rounds, Within, Within-eq}
use ca_project.Float.Rounding.Shares.{exact_sum}
use ca_project.Protocol.{InstructionResponse, start_flush}
use ca_project.Orchestrator.Cluster.{WorkerState}
use ca_project.Orchestrator.Policy.{
  Policy, no_limit, fixed_rate, uniform_fair_share, active_fair_share, static_priority,
  age_priority, epoch_priority, is_active, active_of, decide,
}
use ca_project.Orchestrator.Policy.Sums.{at_bandwidth, sum-active, sum-equal, sum-proportional}
use ca_project.Orchestrator.Policy.Decisions.{
  IsConfigured, holds_idle, weight, rate, weight-pos, decide-idle, decide-flush,
}

module _ {F : Type 0} ⦃o : Float F⦄ where
  -- the rate that an answer of `decide` lets a worker write at
  abbrev pub granted : Result (InstructionResponse F) → F
  granted (raise e) = nought
  granted (ok i) = elim i.action [ start_flush ↦ i.rate_limit_bps | _ ↦ nought ]

  -- the bandwidth that a policy divides
  abbrev pub bandwidth : Policy F → Option F
  bandwidth no_limit = none
  bandwidth (fixed_rate _) = none
  bandwidth (uniform_fair_share pfs) = some pfs
  bandwidth (active_fair_share pfs) = some pfs
  bandwidth (static_priority pfs _ _) = some pfs
  bandwidth (age_priority pfs _ _) = some pfs
  bandwidth (epoch_priority pfs _) = some pfs

  -- the units of the rates that the workers of a snapshot are granted, added up exactly
  abbrev pub total_granted : Rounds F → Policy F → F → Dict (WorkerState F) → ℕ
  total_granted rounds p now workers =
      exact_sum rounds (map (λ e. granted (decide p now e.0 workers)) workers)

  module _ (laws : IsOrdered F) (rounds : Rounds F) where
    open rounds use {units}

    module _ (p : Policy F) (now : F) (workers : Dict (WorkerState F)) where
      -- what a worker gets, by its state
      abbrev due : WorkerState F → F
      due w = if not (holds_idle p) || is_active w then rate p now workers w else nought

      granted-eq-due :
          (k : String) (w : WorkerState F)
          → IsConfigured p
          → get k workers ≡ some w
          → w.worker_id ≡ k
          → granted (decide p now k workers) ≡ due w
      granted-eq-due k w c found e = elim (Bool-cases (not (holds_idle p) || is_active w)) [
        | inl go ↦ rw (
          go,
          decide-flush laws now k workers w found p c e
              (ground (arith, laws.lt-eq-not-le nought w.checkpoint_size)),
        )
        | inr skip ↦ rw (
          skip,
          decide-idle laws now k workers p (ground arith)
              (rw found (ground (arith, laws.lt-eq-not-le nought w.checkpoint_size))),
        )
      ]

    module _ (now : F) (workers : Dict (WorkerState F)) where
      -- `values` keeps the length
      uniform-due :
          (pfs : F)
          → nought ≼ pfs
          → Within
              (2 + length (values workers))
              (exact_sum rounds (map (due (uniform_fair_share pfs) now workers) (values workers)))
              (units pfs)
      uniform-due pfs h =
          subst
            (λ n.
              Within (2 + length (values workers))
                (exact_sum rounds (map (λ _. o.div pfs (of_nat n)) (values workers))) (units pfs))
            (length-values workers) (sum-equal laws rounds pfs (values workers) h)

      proportional :
          (p : Policy F) (b : F)
          → IsConfigured p
          → nought ≼ b
          → Within
              (2 + length (values workers))
              (exact_sum rounds (
                map
                  (λ w.
                    if is_active w
                    then o.div
                        (o.mul b (weight p now workers w))
                        (sum (map (weight p now workers) (active_of workers)))
                    else nought)
                  (values workers)))
              (units b)
      proportional p b c h = sum-active laws rounds _ (values workers) b (
          sum-proportional laws rounds b (weight p now workers) (active_of workers) h
            (weight-pos laws p c now workers))

      -- The workers of a snapshot together get no more than the bandwidth.
      sum-due :
          (p : Policy F) (pfs : F)
          → IsConfigured p
          → bandwidth p ≡ some pfs
          → nought ≼ pfs
          → Within
              (2 + length (values workers))
              (exact_sum rounds (map (due p now workers) (values workers)))
              (units pfs)
      sum-due no_limit pfs c e = cc
      sum-due (fixed_rate r) pfs c e = cc
      sum-due (uniform_fair_share b) pfs c e = at_bandwidth laws rounds _ _ b pfs e (uniform-due b)
      sum-due (active_fair_share b) pfs c e = at_bandwidth laws rounds _ _ b pfs e (λ h.
          sum-active laws rounds _ (values workers) b
            (sum-equal laws rounds b (active_of workers) h))
      sum-due (static_priority b q d) pfs c e =
          at_bandwidth laws rounds _ _ b pfs e (proportional (static_priority b q d) b c)
      sum-due (age_priority b x y) pfs c e =
          at_bandwidth laws rounds _ _ b pfs e (proportional (age_priority b x y) b c)
      sum-due (epoch_priority b f) pfs c e =
          at_bandwidth laws rounds _ _ b pfs e (proportional (epoch_priority b f) b c)

    -- Under every policy that is given a bandwidth, the rates granted to the workers of a snapshot
    -- of the registry, added up exactly, exceed it by no more than the error of rounding: at most
    -- the factor (1 + 2^-53)^(n + 2) for n workers. The policy has passed the asserts of its
    -- constructor, the bandwidth is not negative, no worker id stands twice and each state stands
    -- under its own id. The floats meet the laws of order, and each operation rounds its exact
    -- result once, as IEEE 754 has it where nothing overflows or is subnormal.
    pub total_granted-le-bandwidth :
        (p : Policy F) (now pfs : F) (workers : Dict (WorkerState F))
        → IsConfigured p
        → bandwidth p ≡ some pfs
        → nought ≼ pfs
        → IsDistinct workers
        → ((k : String) (w : WorkerState F) → get k workers ≡ some w → w.worker_id ≡ k)
        → Within (length workers + 2) (total_granted rounds p now workers) (units pfs)
    total_granted-le-bandwidth p now pfs workers c e h distinct named =
        rw
          (map-keys (λ k. granted (decide p now k workers)) (due p now workers) workers distinct
            (λ k w found. granted-eq-due p now workers k w c found (named k w found)))
          (Within-eq _ _ _ _ _ _ refl refl (omega (arith, length-values workers))
            (sum-due now workers p pfs c e h))
