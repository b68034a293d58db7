-- ===== src/Float/Rounding/Shares.antt =====
-- Shares of a float, added up exactly: how far they can exceed it.
use mathlib.Core.Path.{subst}
use native.Mathlib.Nat.{add-mul, mul-add, mul_comm}
use ca_project.Common.{ℕ, suc, ◌+◌, ◌*◌, ◌≡◌, refl, sym, List, [], ◌∷◌, map, length, All, arith}
use ca_project.Float.Laws.{IsOrdered}
use ca_project.Float.Defs.{Float, of_nat, nought, ◌≼◌, ◌≺◌, sum_from, sum}
use ca_project.Float.Rounding.{
  Rounds, Within, Within-le, Within-trans, Within-add, Within-mul, Within-cancel, Within-more,
  Within-eq,
}

one_more : (p n u : ℕ) → p * u + p * (n * u) ≡ p * (suc n * u)
one_more p n u = grind arith

-- A share of `p` by a weight, and shares in proportion to weights added up. `t` is the float that
-- stands for the sum of the weights.
module _ {F : Type 0} ⦃o : Float F⦄ (rounds : Rounds F) where
  open rounds use {units, unit}

  -- the units of some floats added up, exactly
  unfoldable pub exact_sum : List F → ℕ
  exact_sum [] = 0
  exact_sum (x ∷ xs) = units x + exact_sum xs

  module _ (laws : IsOrdered F) where
    -- A sum is at most its exact value, one rounding for each number, and at least.
    sum_from-Within :
        (acc : F) (xs : List F)
        → nought ≼ acc
        → All (λ x. nought ≼ x) xs
        → Within (length xs) (units (sum_from acc xs)) (units acc + exact_sum xs)
          × Within (length xs) (units acc + exact_sum xs) (units (sum_from acc xs))
    unfolding sum_from exact_sum
    sum_from-Within acc [] h k = (Within-le _ _ 0 (omega arith), Within-le _ _ 0 (omega arith))
    sum_from-Within acc (x ∷ xs) h k =
        let next : F = o.add acc x in
        let (upper, lower) =
          sum_from-Within next xs (laws.le_trans _ _ _ h (laws.le-add_right acc x k.0)) k.1 in
        let rest = Within-le (exact_sum xs) (exact_sum xs) 1 (omega arith) in
        (
          Within-eq _ _ _ _ (length xs + 1) (suc (length xs)) refl (omega arith) (omega arith) (
              Within-trans _ _ _ (length xs) 1 upper (
                Within-add (units next) (units acc + units x) (exact_sum xs) (exact_sum xs) 1
                  (rounds.add_upper acc x h k.0) rest)),
          Within-eq _ _ _ _ (1 + length xs) (suc (length xs)) (omega arith) refl (omega arith) (
              Within-trans _ _ _ 1 (length xs)
                (Within-add (units acc + units x) (units next) (exact_sum xs) (exact_sum xs) 1
                  (rounds.add_lower acc x h k.0) rest)
                lower),
        )

    pub sum-Within :
        (xs : List F)
        → All (λ x. nought ≼ x) xs
        → Within (length xs) (units (sum xs)) (exact_sum xs)
          × Within (length xs) (exact_sum xs) (units (sum xs))
    sum-Within xs k =
        let (upper, lower) = sum_from-Within nought xs (laws.le_refl nought) k in
        (
          Within-eq _ _ _ _ _ _ refl (omega (arith, rounds.units_nought)) refl upper,
          Within-eq _ _ _ _ _ _ (omega (arith, rounds.units_nought)) refl refl lower,
        )

    module _ (p t : F) (p_nonneg : nought ≼ p) (t_pos : nought ≺ t) where
      abbrev pub share : F → F
      share w = o.div (o.mul p w) t

      share-Within : (w : F) → nought ≼ w → Within 2 (units (share w) * units t) (units p * units w)
      share-Within w h =
          Within-trans _ _ _ 1 1
            (rounds.div_upper (o.mul p w) t (laws.mul_nonneg p w p_nonneg h) t_pos)
            (rounds.mul_upper p w p_nonneg h)

      shares-product :
          (ws : List F)
          → All (λ w. nought ≼ w) ws
          → Within 2 (exact_sum (map share ws) * units t) (units p * exact_sum ws)
      unfolding exact_sum
      shares-product [] h = Within-le _ _ 2 (omega arith)
      shares-product (w ∷ ws) h =
          rw
            (
              add-mul (units (share w)) (exact_sum (map share ws)) (units t),
              mul-add (units p) (units w) (exact_sum ws),
            )
            (Within-add _ _ _ _ 2 (share-Within w h.0) (shares-product ws h.1))

      -- Shares of `p` in proportion to weights, added up exactly, are at most `p` but for the
      -- roundings of each share and of the sum of the weights.
      pub shares-Within :
          (ws : List F)
          → All (λ w. nought ≼ w) ws
          → sum ws ≡ t
          → Within (2 + length ws) (exact_sum (map share ws)) (units p)
      shares-Within ws h e =
          let lower : Within (length ws) (exact_sum ws) (units t) =
            subst (λ s. Within (length ws) (exact_sum ws) (units s)) e (sum-Within ws h).1 in
          Within-cancel _ _ (units t) (2 + length ws) (rounds.units_pos t t_pos) (
            Within-trans _ _ _ 2 (length ws) (shares-product ws h) (
              Within-eq _ _ _ _ _ _ (mul_comm (exact_sum ws) (units p))
                (mul_comm (units t) (units p)) refl
                (Within-mul (exact_sum ws) (units t) (units p) (length ws) lower)))

      equal-product :
          {A : Type 0} (xs : List A)
          → Within 1 (exact_sum (map (λ _. o.div p t) xs) * units t) (units p * (length xs * unit))
      unfolding exact_sum
      equal-product [] = Within-le _ _ 1 (omega arith)
      equal-product (x ∷ xs) =
          Within-eq _ _ _ _ 1 1 (sym (add-mul _ _ _)) (one_more (units p) (length xs) unit) refl
            (Within-add _ _ _ _ 1 (rounds.div_upper p t p_nonneg t_pos) (equal-product xs))

      -- So are equal shares.
      pub equal-Within :
          {A : Type 0} (xs : List A)
          → of_nat (length xs) ≡ t
          → Within (2 + length xs) (exact_sum (map (λ _. o.div p t) xs)) (units p)
      equal-Within xs e =
          let lower : Within 1 (length xs * unit) (units t) =
            subst (λ s. Within 1 (length xs * unit) (units s)) e
              (rounds.of_nat_lower (length xs)) in
          Within-more _ _ 2 (length xs) (
            Within-cancel _ _ (units t) 2 (rounds.units_pos t t_pos) (
              Within-trans _ _ _ 1 1 (equal-product xs) (
                Within-eq _ _ _ _ _ _ (mul_comm (length xs * unit) (units p))
                  (mul_comm (units t) (units p)) refl
                  (Within-mul (length xs * unit) (units t) (units p) 1 lower))))
