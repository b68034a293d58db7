-- ===== src/Orchestrator/Policy/Decisions.antt =====
-- `decide` raises nothing, and what it answers.
use ca_project.Common.{
  String, ◌≡◌, refl, true, false, ◌&&◌, ◌<◌, Option, none, some, [], ◌∷◌, map, length, Result, ok,
  arith, Bool-cases, Option-cases, inl, inr, ◌↔◌,
}
use ca_project.Common.Dict.{Dict, get}
use ca_project.Float.{Float, of_nat, nought, ◌≺◌, sum, maximum, divide}
use ca_project.Float.Laws.{IsOrdered}
use ca_project.Float.Folds.{divide_pos}
use ca_project.Protocol.{InstructionResponse, hold}
use ca_project.Orchestrator.Cluster.{WorkerState}
use ca_project.Orchestrator.Policy.{
  Policy, no_limit, fixed_rate, uniform_fair_share, active_fair_share, static_priority,
  age_priority, epoch_priority, on_hold, flush, is_active, active_of, if_pending, age_of,
  decide_uniform, decide,
}
use ca_project.Orchestrator.Policy.Weights.{
  traverse-eq-map, active_of-cons, maximum_of, sum_active-pos, larger_epsilon_pos,
  static_weight-pos, age_weight-eq-share, epoch_weight-eq-share,
}
pub use ca_project.Orchestrator.Policy.Rates.{IsConfigured, holds_idle, is_idle, weight, rate}

pub length_pos {ℓ} :
    {V : Type ℓ} (k : String) (d : Dict V) {v : V} → get k d ≡ some v → 0 < length d
unfolding get
length_pos k [] found = absurd (cc)
length_pos k (e ∷ d) found = omega arith

module _ {F : Type 0} ⦃o : Float F⦄ where
  module _ (laws : IsOrdered F) where
    pub weight-pos :
        (p : Policy F)
        → IsConfigured p
        → (now : F) (workers : Dict (WorkerState F)) (w : WorkerState F)
        → nought ≺ weight p now workers w
    weight-pos (static_priority _ q d) c now workers w = static_weight-pos laws q d c w.worker_id
    weight-pos (age_priority _ a b) c now workers w = larger_epsilon_pos laws _
    weight-pos (epoch_priority _ f) c now workers w = larger_epsilon_pos laws _
    weight-pos _ c now workers w = laws.decimal_pos 1 0 (omega arith)

    active_of_not_idle :
        (w : WorkerState F) → o.le w.checkpoint_size nought ≡ false → is_active w ≡ true
    active_of_not_idle w h = rw (laws.lt-eq-not-le nought w.checkpoint_size, h)

    idle-holds :
        (k : WorkerState F → Result (InstructionResponse F)) (w : Option (WorkerState F))
        → is_idle w ≡ true
        → if_pending w k ≡ ok on_hold
    idle-holds k none h = refl
    idle-holds k (some w) h = rw h

    module _ (now : F) (k : String) (workers : Dict (WorkerState F)) where
      -- An idle worker is told to HOLD by the policies that look at pending data.
      pub decide-idle :
          (p : Policy F)
          → holds_idle p ≡ true
          → is_idle (get k workers) ≡ true
          → decide p now k workers ≡ ok on_hold
      unfolding decide
      decide-idle no_limit h idle = cc
      decide-idle (fixed_rate r) h idle = cc
      decide-idle (uniform_fair_share r) h idle = cc
      decide-idle _ h idle = idle-holds _ (get k workers) idle

      module _ (w : WorkerState F) (found : get k workers ≡ some w) where
        module _ (active : is_active w ≡ true) where
          awake : o.le w.checkpoint_size nought ≡ false
          awake = ground (arith, laws.lt-eq-not-le nought w.checkpoint_size)

          length_active_pos : 0 < length (active_of workers)
          length_active_pos =
              let (v, vs, e) = active_of-cons k workers w found active in rw e (omega arith)

          maximum-active :
              (f : WorkerState F → F)
              → maximum (map f (active_of workers)) ≡ ok (maximum_of (map f (active_of workers)))
          unfolding maximum_of
          maximum-active f = let (v, vs, e) = active_of-cons k workers w found active in rw e

          -- the last step of the policies that share in proportion
          divide-sum :
              (p : Policy F)
              → IsConfigured p
              → (x : F)
              → divide x (sum (map (weight p now workers) (active_of workers)))
                ≡ ok (o.div x (sum (map (weight p now workers) (active_of workers))))
          divide-sum p c x = divide_pos laws x _ (
              sum_active-pos laws (weight p now workers) (weight-pos p c now workers) k workers w
                found active)

          decide-active :
              (p : Policy F)
              → IsConfigured p
              → holds_idle p ≡ true
              → w.worker_id ≡ k
              → decide p now k workers ≡ ok (flush (rate p now workers w))
          unfolding decide
          decide-active no_limit c h e = refl
          decide-active (fixed_rate r) c h e = refl
          decide-active (uniform_fair_share pfs) c h e = cc
          decide-active (active_fair_share pfs) c h e = rw (
            found,
            awake,
            divide_pos laws pfs _
                (laws.decimal_pos (length (active_of workers)) 0 length_active_pos),
          )
          decide-active (static_priority pfs q d) c h e =
              rw (found, awake, ← e, divide-sum (static_priority pfs q d) c)
          decide-active (age_priority pfs a b) c h e =
              let top = maximum_of (map (λ v. v.checkpoint_size) (active_of workers)) in
              let oldest = maximum_of (map (λ v. age_of now v.pending_since) (active_of workers)) in
              rw (
                found,
                awake,
                maximum-active (λ v. v.checkpoint_size),
                maximum-active (λ v. age_of now v.pending_since),
                traverse-eq-map _ _ (age_weight-eq-share laws a b now top oldest)
                    (active_of workers),
                age_weight-eq-share laws a b now top oldest w,
                divide-sum (age_priority pfs a b) c,
              )
          decide-active (epoch_priority pfs f) c h e = rw (
            found,
            awake,
            traverse-eq-map _ _ (epoch_weight-eq-share laws f) (active_of workers),
            epoch_weight-eq-share laws f w,
            divide-sum (epoch_priority pfs f) c,
          )

        decide-uniform :
            (pfs : F)
            → decide (uniform_fair_share pfs) now k workers
              ≡ ok (flush (o.div pfs (of_nat (length workers))))
        unfolding decide
        decide-uniform pfs = uniform workers (length_pos k workers found)
          where
            uniform :
                (d : Dict (WorkerState F))
                → 0 < length d
                → decide_uniform pfs d ≡ ok (flush (o.div pfs (of_nat (length d))))
            uniform [] h = absurd (omega arith)
            uniform (e ∷ d) h =
                rw (divide_pos laws pfs _ (laws.decimal_pos (length (e ∷ d)) 0 (omega arith)))

        -- Any other worker that is registered under its own id is told to flush at the policy's
        -- rate.
        pub decide-flush :
            (p : Policy F)
            → IsConfigured p
            → w.worker_id ≡ k
            → (holds_idle p && is_idle (some w)) ≡ false
            → decide p now k workers ≡ ok (flush (rate p now workers w))
        unfolding decide
        decide-flush no_limit c e h = refl
        decide-flush (fixed_rate r) c e h = refl
        decide-flush (uniform_fair_share pfs) c e h = decide-uniform pfs
        decide-flush (active_fair_share pfs) c e h =
            decide-active (active_of_not_idle w h) (active_fair_share pfs) c refl e
        decide-flush (static_priority pfs q d) c e h =
            decide-active (active_of_not_idle w h) (static_priority pfs q d) c refl e
        decide-flush (age_priority pfs a b) c e h =
            decide-active (active_of_not_idle w h) (age_priority pfs a b) c refl e
        decide-flush (epoch_priority pfs f) c e h =
            decide-active (active_of_not_idle w h) (epoch_priority pfs f) c refl e

      -- An idle worker, under a policy that does not look.
      decide-unknown :
          (p : Policy F) → holds_idle p ≡ false → (r : F) × (decide p now k workers ≡ ok (flush r))
      unfolding decide
      decide-unknown no_limit h = (_, refl)
      decide-unknown (fixed_rate r) h = (r, refl)
      decide-unknown (uniform_fair_share pfs) h = uniform workers
        where
          uniform : (d : Dict (WorkerState F)) → (r : F) × (decide_uniform pfs d ≡ ok (flush r))
          uniform [] = (nought, refl)
          uniform (e ∷ d) = (
            o.div pfs (of_nat (length (e ∷ d))),
            rw (divide_pos laws pfs _ (laws.decimal_pos (length (e ∷ d)) 0 (omega arith))),
          )
      decide-unknown _ h = cc

      -- `decide` raises nothing, whatever the snapshot: no division by zero and no maximum of
      -- nothing. It answers HOLD exactly if the policy looks at pending data and the worker is
      -- unknown or has none. The policy has passed its asserts, and each state stands under its own
      -- worker id.
      -- The floats meet the laws of order.
      pub decide_never_raises :
          (p : Policy F)
          → IsConfigured p
          → ((w : WorkerState F) → get k workers ≡ some w → w.worker_id ≡ k)
          → (i : InstructionResponse F) × (decide p now k workers ≡ ok i)
            × ((i.action ≡ hold) ↔ ((holds_idle p && is_idle (get k workers)) ≡ true))
      decide_never_raises p c named = elim (Bool-cases (holds_idle p && is_idle (get k workers))) [
        | inl idle ↦
            (on_hold, decide-idle p (ground arith) (ground arith), ((λ e. idle), λ e. refl))
        | inr busy ↦ elim (Option-cases (get k workers)) [
          | inl unknown ↦
              let (r, e) = decide-unknown p (ground arith) in (flush r, e, ((λ h. cc), λ h. cc))
          | inr (w, found) ↦ (
            flush (rate p now workers w),
            decide-flush w found p c (named w found) (ground arith),
            ((λ h. cc), λ h. cc),
          )
        ]
      ]
