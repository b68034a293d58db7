-- ===== src/Float/Rounding.antt =====
-- How far Python's `float` is from exact arithmetic. A float that is not negative is a whole number
-- of the smallest steps between floats, so its exact value is a natural number: its units.
pub mod Shares
use native.Mathlib.Nat.{
  mul-le-mul_left, mul-le-mul_right, le_of_mul-le-mul_right, pow-le-pow_left, add-mul, mul_assoc,
  mul_comm, pow-suc, pow-zero, zero-add,
}
use ca_project.Common.{
  ℕ, zero, suc, ◌+◌, ◌-◌, ◌*◌, ◌^◌, ◌≤◌, ◌<◌, ◌≡◌, refl, List, [], ◌∷◌, map, length, All, arith,
}
use ca_project.Common.Int.{pos}
use ca_project.Float.Defs.{Float, of_nat, nought, ◌≼◌, ◌≺◌}

-- a double has so many units in the last place of its digits
unfoldable pub precision : ℕ
precision = 2 ^ 53

-- `a` is at most `b` times (1 + 2^-53)^k, the error of k roundings.
unfoldable pub Within : ℕ → ℕ → ℕ → Type 0
Within k a b = a * precision ^ k ≤ b * suc precision ^ k

-- The standard model of floating-point arithmetic, as IEEE 754 has it for doubles: an operation
-- gives its exact result up to one rounding, and `int(x)` drops the fraction. It holds as long as no
-- result overflows or is subnormal.
pub record Rounds (F : Type 0) ⦃o : Float F⦄ : Type 0 where
  -- the units of a float, 0 of a negative one, and those of 1.0
  pub units : F → ℕ
  pub unit : ℕ
  pub unit_pos : 0 < unit
  pub units_pos : (a : F) → nought ≺ a → 0 < units a
  pub units_mono : (a b : F) → a ≼ b → units a ≤ units b
  pub units_nought : units nought ≡ 0
  pub add_upper :
      (a b : F) → nought ≼ a → nought ≼ b → Within 1 (units (o.add a b)) (units a + units b)
  pub add_lower :
      (a b : F) → nought ≼ a → nought ≼ b → Within 1 (units a + units b) (units (o.add a b))
  pub mul_upper :
      (a b : F) → nought ≼ a → nought ≼ b → Within 1 (units (o.mul a b) * unit) (units a * units b)
  pub div_upper :
      (a t : F) → nought ≼ a → nought ≺ t → Within 1 (units (o.div a t) * units t) (units a * unit)
  pub of_nat_lower : (n : ℕ) → Within 1 (n * unit) (units (of_nat n))
  pub trunc_floor : (a : F) → nought ≼ a → (n : ℕ) × (o.trunc a ≡ pos n) × (n * unit ≤ units a)

swap : (a b c : ℕ) → a * b * c ≡ a * c * b
swap a b c = grind arith

shift : (j k : ℕ) → suc j + k ≡ suc (j + k)
shift j k = omega arith

pow-add : (a j k : ℕ) → a ^ (j + k) ≡ a ^ j * a ^ k
pow-add a zero k = rw (pow-zero a, zero-add k) (grind arith)
pow-add a (suc j) k =
    rw (shift j k, pow-suc a (j + k), pow-suc a j, pow-add a j k) (swap (a ^ j) (a ^ k) a)

-- Two steps of a product.
chain : (a b c p q r s : ℕ) → a * p ≤ b * r → b * q ≤ c * s → a * (p * q) ≤ c * (r * s)
chain a b c p q r s h g =
    let first : a * p * q ≤ b * r * q = mul-le-mul_right q h in
    let second : b * q * r ≤ c * s * r = mul-le-mul_right r g in
    rw (← mul_assoc a p q, ← mul_assoc c r s) (omega (arith, first, second, swap b r q, swap c s r))

pub Within-le : (a b k : ℕ) → a ≤ b → Within k a b
unfolding Within
Within-le a b k h = omega (
  arith,
  mul-le-mul_right (precision ^ k) h,
  mul-le-mul_left b (pow-le-pow_left {n = precision} {m = suc precision} (omega arith) k),
)

-- what is no more than something within a bound is within it
pub Within-below : (a b c k : ℕ) → a ≤ b → Within k b c → Within k a c
unfolding Within
Within-below a b c k h g = omega (arith, mul-le-mul_right (precision ^ k) h, g)

pub Within-trans : (a b c j k : ℕ) → Within j a b → Within k b c → Within (j + k) a c
unfolding Within
Within-trans a b c j k h g =
    rw (pow-add precision j k, pow-add (suc precision) j k)
      (chain a b c (precision ^ j) (precision ^ k) (suc precision ^ j) (suc precision ^ k) h g)

pub Within-add : (a b c d k : ℕ) → Within k a b → Within k c d → Within k (a + c) (b + d)
unfolding Within
Within-add a b c d k h g =
    rw (add-mul a c (precision ^ k), add-mul b d (suc precision ^ k)) (omega (arith, h, g))

pub Within-mul : (a b c k : ℕ) → Within k a b → Within k (a * c) (b * c)
unfolding Within
Within-mul a b c k h =
    rw (swap a c (precision ^ k), swap b c (suc precision ^ k)) (mul-le-mul_right c h)

pub Within-cancel : (a b c k : ℕ) → 0 < c → Within k (a * c) (b * c) → Within k a b
unfolding Within
Within-cancel a b c k positive h =
    le_of_mul-le-mul_right (rw (← swap a c (precision ^ k), ← swap b c (suc precision ^ k)) h)
      positive

pub Within-more : (a b j k : ℕ) → Within j a b → Within (j + k) a b
Within-more a b j k h = Within-trans a b b j k h (Within-le b b k (omega arith))

pub Within-eq : (a a' b b' j k : ℕ) → a ≡ a' → b ≡ b' → j ≡ k → Within j a b → Within k a' b'
Within-eq a a' b b' j k e f g h = rw (← e, ← f, ← g) h

pub Within-mono : (a b j k : ℕ) → j ≤ k → Within j a b → Within k a b
Within-mono a b j k le h =
    Within-eq a a b b (j + (k - j)) k refl refl (omega arith) (Within-more a b j (k - j) h)
