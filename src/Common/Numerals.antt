-- ===== src/Common/Numerals.antt =====
-- How Python prints whole numbers and fixed decimals, and what reads them back.
use Prim.Native.Nat.{ℕ, zero, suc, ◌+◌, ◌-◌, ◌*◌, ◌/◌, ◌%◌, ◌<◌}
use mathlib.Core.Path.{◌≡◌, refl}
use mathlib.Core.Logic.{inl, inr}
use mathlib.Core.List.{List, [], ◌∷◌, ◌++◌}
use mathlib.Core.Bool.{true, false}
use native.Mathlib.Omega.{arith}
use ca_project.Common.Tests.{ltb, ltb→lt, if◌then◌else◌, Bool-cases}
use ca_project.Common.Lists.{length, All, All-append, length-append}
use ca_project.Common.Int.{ℤ, pos, negsuc}
use ca_project.Common.Text.{is_digit, value, fraction, span-append}

-- the digits of a number below the fuel
unfoldable pub show_digits : ℕ → ℕ → List ℕ
show_digits zero n = []
show_digits (suc fuel) n =
    let rest = show_digits fuel (n / 10) in
    if ltb n 10 then (n + 48) ∷ [] else rest ++ (n % 10 + 48) ∷ []

-- `str(n)`
unfoldable pub show_nat : ℕ → List ℕ
show_nat n = show_digits (suc n) n

-- `str(z)`
abbrev pub show_int : ℤ → List ℕ
show_int (pos n) = show_nat n
show_int (negsuc n) = 45 ∷ show_nat (suc n)

-- `f"{x:.2f}"` for an x that is n / 100
abbrev pub fixed2 : ℕ → List ℕ
fixed2 n = show_nat (n / 100) ++ 46 ∷ (n / 10 % 10 + 48) ∷ (n % 10 + 48) ∷ []

abbrev pub AreDigits : List ℕ → Type 0
AreDigits xs = All (λ c. is_digit c ≡ true) xs

digit : (n : ℕ) → n < 10 → is_digit (n + 48) ≡ true
digit n h = ground arith

show_digits-AreDigits : (fuel n : ℕ) → AreDigits (show_digits fuel n)
unfolding show_digits
show_digits-AreDigits zero n = tt
show_digits-AreDigits (suc fuel) n = elim (Bool-cases (ltb n 10)) [
  | inl small ↦ rw small (digit n (ltb→lt n 10 small), tt)
  | inr big ↦
      rw big
        (All-append _ _ _ (show_digits-AreDigits fuel (n / 10)) (digit (n % 10) (omega arith), tt))
]

pub show_nat-AreDigits : (n : ℕ) → AreDigits (show_nat n)
unfolding show_nat
show_nat-AreDigits n = show_digits-AreDigits (suc n) n

pub value-append : (acc : ℕ) (xs ys : List ℕ) → value acc (xs ++ ys) ≡ value (value acc xs) ys
unfolding value
value-append acc [] ys = refl
value-append acc (x ∷ xs) ys = value-append (acc * 10 + (x - 48)) xs ys

value-show_digits : (fuel n : ℕ) → n < fuel → value 0 (show_digits fuel n) ≡ n
unfolding show_digits value
value-show_digits zero n h = absurd (omega arith)
value-show_digits (suc fuel) n h = elim (Bool-cases (ltb n 10)) [
  | inl small ↦ rw small (omega arith)
  | inr big ↦
      rw
        (
          big,
          value-append 0 (show_digits fuel (n / 10)) ((n % 10 + 48) ∷ []),
          value-show_digits fuel (n / 10) (ground arith),
        )
        (omega arith)
]

-- Reading what is printed gives the number back.
pub value-show_nat : (n : ℕ) → value 0 (show_nat n) ≡ n
unfolding show_nat
value-show_nat n = value-show_digits (suc n) n (omega arith)

pub length-show_nat-pos : (n : ℕ) → 0 < length (show_nat n)
unfolding show_nat show_digits
length-show_nat-pos n = ground (arith, length-append (show_digits n (n / 10)) ((n % 10 + 48) ∷ []))

-- The digits of a decimal, without the point.
pub value-fixed2 :
    (n : ℕ) → value 0 (show_nat (n / 100) ++ (n / 10 % 10 + 48) ∷ (n % 10 + 48) ∷ []) ≡ n
unfolding value
value-fixed2 n =
    rw
      (
        value-append 0 (show_nat (n / 100)) ((n / 10 % 10 + 48) ∷ (n % 10 + 48) ∷ []),
        value-show_nat (n / 100),
      )
      (omega arith)

pub decimals-AreDigits : (n : ℕ) → AreDigits ((n / 10 % 10 + 48) ∷ (n % 10 + 48) ∷ [])
decimals-AreDigits n = (digit (n / 10 % 10) (omega arith), (digit (n % 10) (omega arith), tt))

-- A point and two digits are a fraction.
pub fraction-two :
    (d e c : ℕ) (cs : List ℕ)
    → AreDigits (d ∷ e ∷ [])
    → is_digit c ≡ false
    → fraction (46 ∷ d ∷ e ∷ c ∷ cs) ≡ (d ∷ e ∷ [], c ∷ cs)
unfolding fraction
fraction-two d e c cs h stop = rw (span-append is_digit (d ∷ e ∷ []) (c ∷ cs) h stop) refl
