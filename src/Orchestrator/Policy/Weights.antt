-- ===== src/Orchestrator/Policy/Weights.antt =====
-- What the policies compute when nothing is raised: each active worker's weight, a number above
-- zero, and its share of the bandwidth.
use ca_project.Common.{
  zero, suc, String, ◌≡◌, refl, true, some, List, [], ◌∷◌, map, All, if◌then◌else◌, Result, ok,
  arith, Bool-cases, inl, inr,
}
use ca_project.Common.Int.{ℤ, pos, negsuc}
use ca_project.Common.Dict.{Dict, get}
use ca_project.Float.{of_int, Float, of_nat, nought, ◌≺◌, larger, smaller, sum, max_from, divide}
use ca_project.Float.Laws.{IsOrdered}
use ca_project.Float.Folds.{divide_pos, le-larger_right, lt_of_lt_le, sum-pos}
use ca_project.Orchestrator.Cluster.{WorkerState}
use ca_project.Orchestrator.Policy.{
  traverse, is_active, active_of, epsilon, static_weight, age_of, age_weight, progress_of,
  epoch_weight,
}

pub traverse-eq-map {ℓ} :
    {A : Type ℓ} {B : Type 0} (f : A → Result B) (g : A → B)
    → ((x : A) → f x ≡ ok (g x))
    → (xs : List A) → traverse f xs ≡ ok (map g xs)
unfolding traverse
traverse-eq-map f g h [] = refl
traverse-eq-map f g h (x ∷ xs) = rw (h x, traverse-eq-map f g h xs)

pub All-map {ℓ κ μ} :
    {A : Type ℓ} {B : Type κ} (P : B → Type μ) (g : A → B)
    → ((x : A) → P (g x))
    → (xs : List A) → All P (map g xs)
All-map P g h [] = tt
All-map P g h (x ∷ xs) = (h x, All-map P g h xs)

module _ {F : Type 0} ⦃o : Float F⦄ where
  -- An active worker that is found makes the list of active workers not empty.
  pub active_of-cons :
      (k : String) (workers : Dict (WorkerState F)) (w : WorkerState F)
      → get k workers ≡ some w
      → is_active w ≡ true
      → (v : WorkerState F) × (vs : List (WorkerState F)) × (active_of workers ≡ v ∷ vs)
  unfolding get
  active_of-cons k [] w found active = absurd (cc)
  active_of-cons k ((j, v) ∷ workers) w found active = elim (Bool-cases (is_active v)) [
    | inl here ↦ (v, active_of workers, rw here)
    | inr skipped ↦
        let (u, us, e) = active_of-cons k workers w (ground arith) active in
        (u, us, rw (skipped, e))
  ]

  unfoldable pub maximum_of : List F → F
  maximum_of [] = nought
  maximum_of (x ∷ xs) = max_from x xs

  -- `x / y` where y is above zero, else 0
  abbrev pub ratio : F → F → F
  ratio x y = if o.lt nought y then o.div x y else nought

  abbrev pub age_share : F → F → F → F → F → WorkerState F → F
  age_share alpha beta now max_size max_age w =
      larger
        (o.add (o.mul alpha (ratio w.checkpoint_size max_size))
          (o.mul beta (ratio (age_of now w.pending_since) max_age)))
        epsilon

  abbrev pub progress_share : ℤ → ℤ → F
  progress_share epoch (negsuc n) = nought
  progress_share epoch (pos zero) = nought
  progress_share epoch (pos (suc n)) =
      larger nought (smaller (o.div (of_int epoch) (of_nat (suc n))) (of_nat 1))

  abbrev pub epoch_share : F → WorkerState F → F
  epoch_share floor w =
      larger (o.add floor (o.mul (o.sub (of_nat 1) floor) (progress_share w.epoch w.total_epochs)))
        epsilon

  module _ (laws : IsOrdered F) where
    pub sum_active-pos :
        (g : WorkerState F → F)
        → ((v : WorkerState F) → nought ≺ g v)
        → (k : String) (workers : Dict (WorkerState F)) (w : WorkerState F) → get k workers ≡ some w
        → is_active w ≡ true
        → nought ≺ sum (map g (active_of workers))
    sum_active-pos g h k workers w found active =
        let (v, vs, e) = active_of-cons k workers w found active in
        rw e (sum-pos laws (g v) (map g vs) (All-map (λ x. nought ≺ x) g h (v ∷ vs)))

    pub epsilon_pos : ◌≺◌ {F = F} nought epsilon
    epsilon_pos = laws.decimal_pos 1 6 (omega arith)

    pub larger_epsilon_pos : (x : F) → nought ≺ larger x epsilon
    larger_epsilon_pos x = lt_of_lt_le laws _ _ _ epsilon_pos (le-larger_right laws x epsilon)

    pub static_weight-pos :
        (priorities : Dict F) (default_priority : F)
        → nought ≺ default_priority
        → (k : String) → nought ≺ static_weight priorities default_priority k
    unfolding static_weight
    static_weight-pos priorities default_priority h k = ground arith

    ratio-divide : (x y : F) → (if o.lt nought y then divide x y else ok nought) ≡ ok (ratio x y)
    ratio-divide x y = elim (Bool-cases (o.lt nought y)) [
      | inl h ↦ rw h (divide_pos laws x y h)
      | inr h ↦ rw h
    ]

    pub age_weight-eq-share :
        (alpha beta now max_size max_age : F) (w : WorkerState F)
        → age_weight alpha beta now max_size max_age w
          ≡ ok (age_share alpha beta now max_size max_age w)
    unfolding age_weight
    age_weight-eq-share alpha beta now max_size max_age w =
        rw (
          ratio-divide w.checkpoint_size max_size,
          ratio-divide (age_of now w.pending_since) max_age,
        )

    progress_of-eq-share :
        (epoch total : ℤ) → progress_of epoch total ≡ ok (progress_share epoch total)
    progress_of-eq-share epoch (negsuc n) = refl
    progress_of-eq-share epoch (pos zero) = refl
    progress_of-eq-share epoch (pos (suc n)) =
        rw (
          divide_pos laws (of_int epoch) (of_nat (suc n))
            (laws.decimal_pos (suc n) 0 (omega arith)))

    pub epoch_weight-eq-share :
        (floor : F) (w : WorkerState F) → epoch_weight floor w ≡ ok (epoch_share floor w)
    unfolding epoch_weight
    epoch_weight-eq-share floor w = rw (progress_of-eq-share w.epoch w.total_epochs)
