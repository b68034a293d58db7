-- ===== src/Float/Whole.antt =====
-- Whole numbers meet the laws of `Float`: quotients are rounded down, decimals up.
use native.Mathlib.Nat.{mul-le-mul_left, le-div_iff_mul-le, mul-div-le, pow-suc, div-one}
use ca_project.Common.{
  ℕ, refl, suc, ◌+◌, ◌-◌, ◌*◌, ◌/◌, ◌^◌, ◌≤◌, ◌<◌, ◌≡◌, zero, ltb, leb, leb→le, le→leb, ltb→lt,
  lt→ltb, ◌==◌, arith,
}
use ca_project.Common.Int.{pos}
use ca_project.Float.Defs.{Float}
use ca_project.Float.Laws.{IsOrdered}
use ca_project.Float.Rounding.{Rounds, Within-le}

instance abbrev pub whole : Float ℕ
whole = record {
  decimal = λ m k. (m + 10 ^ k - 1) / 10 ^ k;
  add = λ a b. a + b;
  sub = λ a b. a - b;
  mul = λ a b. a * b;
  div = λ a b. a / b;
  lt = ltb;
  le = leb;
  eq = λ a b. a == b;
  trunc = pos;
}

div_mono : (a b t : ℕ) → a ≤ b → a / t ≤ b / t
div_mono a b t h = grind arith

div_antitone : (a s t : ℕ) → 0 < s → s ≤ t → a / t ≤ a / s
div_antitone a s t h k = grind arith

pow_pos : (k : ℕ) → 0 < 10 ^ k
pow_pos zero = omega arith
pow_pos (suc k) = rw pow-suc (omega (arith, pow_pos k))

decimal_pos : (m k : ℕ) → 0 < m → 0 < (m + 10 ^ k - 1) / 10 ^ k
decimal_pos m k h = (le-div_iff_mul-le (pow_pos k)).1 (omega (arith, pow_pos k))

of_nat_lem : (n : ℕ) → (n + 10 ^ 0 - 1) / 10 ^ 0 ≡ n
of_nat_lem n = rw (div-one) (omega arith)

pub whole-IsOrdered : IsOrdered ℕ
whole-IsOrdered = record {
  le_refl = λ a. ground arith;
  le_trans = λ a b c p q. ground arith;
  le_total = λ a b p. ground arith;
  lt-eq-not-le = λ a b. ground arith;
  le_of_eq = λ a b p. ground arith;
  add_mono = λ a b c d p q. ground arith;
  le-add_left = λ a b p. ground arith;
  le-add_right = λ a b p. ground arith;
  sub_mono = λ a b c d p q. ground arith;
  sub_nonneg = λ a b p. ground arith;
  mul_nonneg = λ a b p q. ground arith;
  mul_mono = λ c a b p q. le→leb _ _ (mul-le-mul_left c (leb→le a b q));
  div_nonneg = λ a t p q. ground arith;
  div_mono = λ a b t p q. le→leb _ _ (div_mono a b t (leb→le a b p));
  div_antitone = λ a s t p q r. le→leb _ _ (div_antitone a s t (ltb→lt 0 s q) (leb→le s t r));
  of_nat_mono = λ m n p. le→leb _ _ (rw (of_nat_lem m, of_nat_lem n) p);
  decimal_pos = λ m k p. lt→ltb _ _ (decimal_pos m k p);
}

-- No operation on whole numbers rounds up.
pub whole-Rounds : Rounds ℕ
whole-Rounds = record {
  units = λ a. a;
  unit = 1;
  unit_pos = omega arith;
  units_pos = λ a p. ltb→lt 0 a p;
  units_mono = λ a b p. leb→le a b p;
  units_nought = refl;
  add_upper = λ a b p q. Within-le _ _ 1 (omega arith);
  add_lower = λ a b p q. Within-le _ _ 1 (omega arith);
  mul_upper = λ a b p q. Within-le _ _ 1 (omega arith);
  div_upper = λ a t p q. Within-le _ _ 1 (omega (arith, mul-div-le a t));
  of_nat_lower = λ n. Within-le _ _ 1 (rw (of_nat_lem n) (omega arith));
  trunc_floor = λ a p. (a, refl, omega arith);
}
