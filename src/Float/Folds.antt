-- ===== src/Float/Folds.antt =====
-- Sums and maxima of floats: `sum(xs)`, `max(xs)` and quotients by a sum.
use ca_project.Common.{◌≡◌, List, [], ◌∷◌, All, ok, arith}
use ca_project.Float.Defs.{Float, nought, ◌≼◌, ◌≺◌, divide, larger, smaller, sum_from, sum}
use ca_project.Float.Laws.{IsOrdered}

module _ {F : Type 0} ⦃o : Float F⦄ (laws : IsOrdered F) where
  open laws use {
    le_refl, le_trans, le_total, lt-eq-not-le, le_of_eq, add_mono, le-add_left, le-add_right,
  }

  pub le_of_lt : (a b : F) → a ≺ b → a ≼ b
  le_of_lt a b h = ground (arith, lt-eq-not-le a b, le_total b a)

  pub lt_of_lt_le : (a b c : F) → a ≺ b → b ≼ c → a ≺ c
  lt_of_lt_le a b c h k = ground (arith, lt-eq-not-le a b, lt-eq-not-le a c, le_trans b c a)

  pub lt_of_le_lt : (a b c : F) → a ≼ b → b ≺ c → a ≺ c
  lt_of_le_lt a b c h k = ground (arith, lt-eq-not-le b c, lt-eq-not-le a c, le_trans c a b)

  -- A divisor above zero raises nothing.
  pub divide_pos : (a b : F) → nought ≺ b → divide a b ≡ ok (o.div a b)
  divide_pos a b h = ground (arith, lt-eq-not-le nought b, le_of_eq b nought)

  pub le-larger_right : (a b : F) → b ≼ larger a b
  le-larger_right a b = ground (arith, lt-eq-not-le a b, le_refl b, le_total b a)

  pub le-larger_left : (a b : F) → a ≼ larger a b
  le-larger_left a b = ground (arith, le_refl a, le_of_lt a b)

  pub larger_mono : (a b c : F) → a ≼ b → larger a c ≼ larger b c
  larger_mono a b c h = ground (
    arith,
    le_refl c,
    le_of_lt b c,
    le_trans a b c,
    lt-eq-not-le a c,
    lt-eq-not-le b c,
    le_total c b,
    le_trans a c b,
    le_total c a,
  )

  pub larger_mono_right : (a b c : F) → a ≼ b → larger c a ≼ larger c b
  larger_mono_right a b c h = ground (
    arith,
    le_refl c,
    le_of_lt c b,
    le_trans c a b,
    le_trans a b c,
    le_of_lt c a,
    lt-eq-not-le c a,
    lt-eq-not-le c b,
  )

  pub smaller_mono : (a b c : F) → a ≼ b → smaller a c ≼ smaller b c
  smaller_mono a b c h = ground (
    arith,
    le_refl c,
    le_of_lt c a,
    le_trans a b c,
    lt-eq-not-le c a,
    lt-eq-not-le c b,
    le_total a c,
  )

  -- A sum of numbers that are not negative is at least the number that it starts from.
  pub le-sum_from : (acc : F) (xs : List F) → All (λ x. nought ≼ x) xs → acc ≼ sum_from acc xs
  unfolding sum_from
  le-sum_from acc [] h = le_refl acc
  le-sum_from acc (x ∷ xs) h =
      le_trans _ _ _ (le-add_right acc x h.0) (le-sum_from (o.add acc x) xs h.1)

  nonneg_of_pos : (xs : List F) → All (λ x. nought ≺ x) xs → All (λ x. nought ≼ x) xs
  nonneg_of_pos [] h = tt
  nonneg_of_pos (x ∷ xs) h = (le_of_lt _ _ h.0, nonneg_of_pos xs h.1)

  pub sum-pos : (x : F) (xs : List F) → All (λ x. nought ≺ x) (x ∷ xs) → nought ≺ sum (x ∷ xs)
  unfolding sum_from
  sum-pos x xs h = lt_of_lt_le _ _ _ h.0 (
      le_trans _ _ _ (le-add_left nought x (le_refl nought))
        (le-sum_from (o.add nought x) xs (nonneg_of_pos xs h.1)))
