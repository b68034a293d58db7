-- ===== src/Orchestrator/Policy/Sums.antt =====
-- Sums of the shares that the policies of src/orchestrator/scheduler.py grant.
use mathlib.Core.Path.{subst}
use ca_project.Common.{
  ℕ, suc, ◌+◌, ◌≤◌, sym, ap, ◌≡◌, refl, Bool, some, List, [], ◌∷◌, map, select, length,
  if◌then◌else◌, arith, Bool-cases, inl, inr,
}
use ca_project.Float.{Float, of_nat, nought, ◌≺◌, ◌≼◌, sum}
use ca_project.Float.Laws.{IsOrdered}
use ca_project.Float.Rounding.{Rounds, Within, Within-le, Within-mono, Within-eq}
use ca_project.Float.Rounding.Shares.{exact_sum, shares-Within, equal-Within}
use ca_project.Float.Folds.{sum-pos, le_of_lt}
use ca_project.Orchestrator.Cluster.{WorkerState}
use ca_project.Orchestrator.Policy.{is_active}
use ca_project.Orchestrator.Policy.Weights.{All-map}

module _ {F : Type 0} ⦃o : Float F⦄ (laws : IsOrdered F) (rounds : Rounds F) where
  open rounds use {units}

  exact_sum-select :
      {A : Type 0} (keep : A → Bool) (f : A → F) (xs : List A)
      → exact_sum rounds (map (λ x. if keep x then f x else nought) xs)
        ≡ exact_sum rounds (map f (select keep xs))
  unfolding exact_sum
  exact_sum-select keep f [] = refl
  exact_sum-select keep f (x ∷ xs) = elim (Bool-cases (keep x)) [
    | inl kept ↦ rw (kept, exact_sum-select keep f xs) refl
    | inr out ↦ rw (out, rounds.units_nought, exact_sum-select keep f xs) (omega arith)
  ]

  length-select-le :
      {A : Type 0} (keep : A → Bool) (xs : List A) → length (select keep xs) ≤ length xs
  length-select-le keep [] = omega arith
  length-select-le keep (x ∷ xs) = ground (arith, length-select-le keep xs)

  map-after :
      (g : WorkerState F → F) (f : F → F) (ws : List (WorkerState F))
      → map f (map g ws) ≡ map (λ w. f (g w)) ws
  map-after g f [] = refl
  map-after g f (w ∷ ws) = ap (λ l. f (g w) ∷ l) (map-after g f ws)

  length-of-map :
      (g : WorkerState F → F) (ws : List (WorkerState F)) → length (map g ws) ≡ length ws
  length-of-map g [] = refl
  length-of-map g (w ∷ ws) = ap suc (length-of-map g ws)

  pub sum-proportional :
      (p : F) (g : WorkerState F → F) (ws : List (WorkerState F))
      → nought ≼ p
      → ((w : WorkerState F) → nought ≺ g w)
      → Within
          (2 + length ws)
          (exact_sum rounds (map (λ w. o.div (o.mul p (g w)) (sum (map g ws))) ws))
          (units p)
  unfolding exact_sum
  sum-proportional p g [] h positive = Within-le _ _ 2 (omega arith)
  sum-proportional p g (w ∷ ws) h positive =
      let t = sum (map g (w ∷ ws)) in
      Within-eq _ _ _ _ _ _
        (ap (exact_sum rounds) (map-after g (λ x. o.div (o.mul p x) t) (w ∷ ws))) refl
        (ap (λ n. 2 + n) (length-of-map g (w ∷ ws)))
        (shares-Within rounds laws p t h
          (sum-pos laws (g w) (map g ws) (All-map (λ x. nought ≺ x) g positive (w ∷ ws)))
          (map g (w ∷ ws))
          (All-map (λ x. nought ≼ x) g (λ v. le_of_lt laws nought (g v) (positive v)) (w ∷ ws))
          refl)

  pub sum-equal :
      {A : Type 0} (p : F) (xs : List A)
      → nought ≼ p
      → Within
          (2 + length xs)
          (exact_sum rounds (map (λ _. o.div p (of_nat (length xs))) xs))
          (units p)
  unfolding exact_sum
  sum-equal p [] h = Within-le _ _ 2 (omega arith)
  sum-equal p (x ∷ xs) h =
      equal-Within rounds laws p (of_nat (length (x ∷ xs))) h
        (laws.decimal_pos (length (x ∷ xs)) 0 (omega arith)) (x ∷ xs) refl

  pub at_bandwidth :
      (x k : ℕ) (b pfs : F)
      → some b ≡ some pfs
      → (nought ≼ b → Within k x (units b))
      → nought ≼ pfs
      → Within k x (units pfs)
  at_bandwidth x k b pfs e =
      let same : b ≡ pfs = cc in subst (λ y. nought ≼ y → Within k x (units y)) same

  pub sum-active :
      (f : WorkerState F → F) (ws : List (WorkerState F)) (p : F)
      → Within
          (2 + length (select is_active ws))
          (exact_sum rounds (map f (select is_active ws)))
          (units p)
      → Within
          (2 + length ws)
          (exact_sum rounds (map (λ w. if is_active w then f w else nought) ws))
          (units p)
  sum-active f ws p h =
      Within-mono _ _ (2 + length (select is_active ws)) (2 + length ws)
        (omega (arith, length-select-le is_active ws))
        (Within-eq _ _ _ _ _ _ (sym (exact_sum-select is_active f ws)) refl refl h)
