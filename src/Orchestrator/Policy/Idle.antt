-- ===== src/Orchestrator/Policy/Idle.antt =====
-- What workers with nothing pending mean for the answers to the others.
use text.Mathlib.TextEquality.{eq_iff}
use ca_project.Common.{
  String, ◌≡◌, refl, sym, ◌∙◌, true, false, Option, none, some, [], ◌∷◌, if◌then◌else◌, arith,
  Bool-cases, inl, inr,
}
use ca_project.Common.Dict.{Dict, get, IsDistinct}
use ca_project.Float.{Float, nought}
use ca_project.Float.Laws.{IsOrdered}
use ca_project.Orchestrator.Cluster.{WorkerState}
use ca_project.Orchestrator.Policy.{
  Policy, no_limit, fixed_rate, uniform_fair_share, active_fair_share, static_priority,
  age_priority, epoch_priority, is_active, active_of, decide,
}
use ca_project.Orchestrator.Policy.Decisions.{holds_idle, is_idle, decide-idle}

module _ {F : Type 0} ⦃o : Float F⦄ where
  -- the snapshot without the workers that have nothing pending
  unfoldable pub pending_only : Dict (WorkerState F) → Dict (WorkerState F)
  pending_only [] = []
  pending_only ((k, w) ∷ d) =
      let rest = pending_only d in if is_active w then (k, w) ∷ rest else rest

  active_of-pending_only : (d : Dict (WorkerState F)) → active_of (pending_only d) ≡ active_of d
  unfolding pending_only
  active_of-pending_only [] = refl
  active_of-pending_only ((k, w) ∷ d) = elim (Bool-cases (is_active w)) [
    | inl active ↦ rw (active, active, active_of-pending_only d)
    | inr idle ↦ rw (idle, active_of-pending_only d)
  ]

  get-pending_only-none :
      (k : String) (d : Dict (WorkerState F)) → get k d ≡ none → get k (pending_only d) ≡ none
  unfolding get pending_only
  get-pending_only-none k [] h = refl
  get-pending_only-none k ((j, w) ∷ d) h = ground (arith, get-pending_only-none k d)

  -- A worker with pending data is still found, any other is not.
  get-pending_only :
      (k : String) (d : Dict (WorkerState F))
      → IsDistinct d
      → get k (pending_only d)
        ≡ elim (get k d) [ none ↦ none | some w ↦ if is_active w then some w else none ]
  unfolding get pending_only
  get-pending_only k [] distinct = refl
  get-pending_only k ((j, w) ∷ d) distinct =
      ground
        (arith, eq_iff j k, distinct.0, get-pending_only k d distinct.1, get-pending_only-none k d)

  -- An answer depends on the worker and on those with pending data.
  decide-same :
      (p : Policy F) (now : F) (k : String) (d e : Dict (WorkerState F))
      → holds_idle p ≡ true
      → get k d ≡ get k e
      → active_of d ≡ active_of e
      → decide p now k d ≡ decide p now k e
  unfolding decide
  decide-same no_limit now k d e h found active = refl
  decide-same (fixed_rate r) now k d e h found active = refl
  decide-same (uniform_fair_share r) now k d e h found active = cc
  decide-same (active_fair_share r) now k d e h found active = rw (found, active)
  decide-same (static_priority r q x) now k d e h found active = rw (found, active)
  decide-same (age_priority r a b) now k d e h found active = rw (found, active)
  decide-same (epoch_priority r f) now k d e h found active = rw (found, active)

  module _ (laws : IsOrdered F) where
    -- Workers with nothing pending take no share: under every policy that looks at pending data,
    -- the answer to each worker, or to a stranger, is the same as if they were not registered. No
    -- worker id stands twice in the snapshot, and the floats meet the laws of order.
    pub decide-pending_only :
        (p : Policy F) (now : F) (k : String) (workers : Dict (WorkerState F))
        → holds_idle p ≡ true
        → IsDistinct workers
        → decide p now k (pending_only workers) ≡ decide p now k workers
    decide-pending_only p now k workers h distinct = elim (Bool-cases (is_idle (get k workers))) [
      | inl idle ↦
          let gone : is_idle (get k (pending_only workers)) ≡ true =
            rw (get-pending_only k workers distinct) (vanishes (get k workers) idle) in
          decide-idle laws now k (pending_only workers) p h gone
          ∙ sym (decide-idle laws now k workers p h idle)
      | inr busy ↦
          decide-same p now k (pending_only workers) workers h
            (get-pending_only k workers distinct ∙ stays (get k workers) busy)
            (active_of-pending_only workers)
    ]
      where
        kept : Option (WorkerState F) → Option (WorkerState F)
        kept w = elim w [ none ↦ none | some v ↦ if is_active v then some v else none ]

        stays : (w : Option (WorkerState F)) → is_idle w ≡ false → kept w ≡ w
        stays none b = cc
        stays (some w) b = ground (arith, laws.lt-eq-not-le nought w.checkpoint_size)

        vanishes : (w : Option (WorkerState F)) → is_idle w ≡ true → is_idle (kept w) ≡ true
        vanishes none b = refl
        vanishes (some w) b = ground (arith, laws.lt-eq-not-le nought w.checkpoint_size)
