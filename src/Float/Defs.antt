-- ===== src/Float/Defs.antt =====
-- The operations of `float` that the program calls, and Python's functions on top of them.
use ca_project.Common.{
  ℕ, suc, Bool, true, ◌≡◌, List, [], ◌∷◌, if◌then◌else◌, Result, ok, raise, zero_division_error,
  value_error,
}
use ca_project.Common.Int.{ℤ, pos, negsuc}

pub record Float (F : Type 0) : Type 0 where
  -- the literal m / 10 ^ k: `decimal 5 1` is 0.5, `decimal 3 0` is 3
  pub decimal : ℕ → ℕ → F
  pub add : F → F → F
  pub sub : F → F → F
  pub mul : F → F → F
  -- the quotient, at a divisor that is not zero
  pub div : F → F → F
  pub lt : F → F → Bool
  pub le : F → F → Bool
  pub eq : F → F → Bool
  -- `int(x)`
  pub trunc : F → ℤ

module _ {F : Type 0} ⦃o : Float F⦄ where
  abbrev pub of_nat : ℕ → F
  of_nat n = o.decimal n 0

  abbrev pub nought : F
  nought = of_nat 0

  -- an `int` in an operation with a `float`
  abbrev pub of_int : ℤ → F
  of_int (pos n) = of_nat n
  of_int (negsuc n) = o.sub nought (of_nat (suc n))

  infix 50 ◌≼◌ ◌≺◌
  abbrev pub ◌≼◌ : F → F → Type 0
  a ≼ b = o.le a b ≡ true

  abbrev pub ◌≺◌ : F → F → Type 0
  a ≺ b = o.lt a b ≡ true

  -- `a / b`
  abbrev pub divide : F → F → Result F
  divide a b = if o.eq b nought then raise zero_division_error else ok (o.div a b)

  -- `max(a, b)` and `min(a, b)`
  abbrev pub larger : F → F → F
  larger a b = if o.lt a b then b else a

  abbrev pub smaller : F → F → F
  smaller a b = if o.lt b a then b else a

  -- `sum(xs)` from a given start
  unfoldable pub sum_from : F → List F → F
  sum_from acc [] = acc
  sum_from acc (x ∷ xs) = sum_from (o.add acc x) xs

  abbrev pub sum : List F → F
  sum = sum_from nought

  unfoldable pub max_from : F → List F → F
  max_from top [] = top
  max_from top (x ∷ xs) = max_from (larger top x) xs

  -- `max(xs)`
  abbrev pub maximum : List F → Result F
  maximum [] = raise value_error
  maximum (x ∷ xs) = ok (max_from x xs)
