-- ===== src/Orchestrator/Policy/Rates.antt =====
-- What a policy is configured with, and the rate at which it tells a worker with pending data to
-- flush, written out.
use ca_project.Common.{Bool, true, false, Option, none, some, map, length}
use ca_project.Common.Dict.{Dict}
use ca_project.Float.{Float, of_nat, nought, ◌≺◌, ◌≼◌, sum}
use ca_project.Orchestrator.Cluster.{WorkerState}
use ca_project.Orchestrator.Policy.{
  Policy, no_limit, fixed_rate, uniform_fair_share, active_fair_share, static_priority,
  age_priority, epoch_priority, active_of, static_weight, age_of,
}
use ca_project.Orchestrator.Policy.Weights.{maximum_of, age_share, epoch_share}

module _ {F : Type 0} ⦃o : Float F⦄ where
  -- what the asserts of the constructors establish
  abbrev pub IsConfigured : Policy F → Type 0
  IsConfigured (static_priority _ _ default_priority) = nought ≺ default_priority
  IsConfigured (age_priority _ alpha beta) =
      (nought ≼ alpha) × (nought ≼ beta) × (nought ≺ o.add alpha beta)
  IsConfigured (epoch_priority _ floor) = (nought ≼ floor) × (floor ≼ of_nat 1)
  IsConfigured _ = Unit

  -- the policies that tell an idle worker to HOLD
  abbrev pub holds_idle : Policy F → Bool
  holds_idle no_limit = false
  holds_idle (fixed_rate _) = false
  holds_idle (uniform_fair_share _) = false
  holds_idle _ = true

  -- a worker that is unknown or has nothing pending
  abbrev pub is_idle : Option (WorkerState F) → Bool
  is_idle none = true
  is_idle (some w) = o.le w.checkpoint_size nought

  -- the weight of an active worker under a policy that shares in proportion
  abbrev pub weight : Policy F → F → Dict (WorkerState F) → WorkerState F → F
  weight (static_priority _ priorities default_priority) now workers w =
      static_weight priorities default_priority w.worker_id
  weight (age_priority _ alpha beta) now workers w =
      age_share alpha beta now (maximum_of (map (λ v. v.checkpoint_size) (active_of workers)))
        (maximum_of (map (λ v. age_of now v.pending_since) (active_of workers))) w
  weight (epoch_priority _ floor) now workers w = epoch_share floor w
  weight _ now workers w = of_nat 1

  -- the rate of a worker that is told to flush
  abbrev pub rate : Policy F → F → Dict (WorkerState F) → WorkerState F → F
  rate no_limit now workers w = of_nat 1073741824
  rate (fixed_rate r) now workers w = r
  rate (uniform_fair_share pfs) now workers w = o.div pfs (of_nat (length workers))
  rate (active_fair_share pfs) now workers w = o.div pfs (of_nat (length (active_of workers)))
  rate (static_priority pfs q d) now workers w =
      let g : WorkerState F → F = weight (static_priority pfs q d) now workers in
      o.div (o.mul pfs (g w)) (sum (map g (active_of workers)))
  rate (age_priority pfs a b) now workers w =
      let g : WorkerState F → F = weight (age_priority pfs a b) now workers in
      o.div (o.mul pfs (g w)) (sum (map g (active_of workers)))
  rate (epoch_priority pfs f) now workers w =
      let g : WorkerState F → F = weight (epoch_priority pfs f) now workers in
      o.div (o.mul pfs (g w)) (sum (map g (active_of workers)))
