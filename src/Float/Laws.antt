-- ===== src/Float/Laws.antt =====
-- What the proofs ask of `float`.
use ca_project.Common.{ℕ, ◌≤◌, ◌<◌, ◌≡◌, true, false, not}
use ca_project.Float.Defs.{Float, of_nat, nought, ◌≼◌, ◌≺◌}

-- The order, and that the operations respect it. IEEE 754 has these laws as long as no value is
-- NaN: rounding is monotone.
pub record IsOrdered (F : Type 0) ⦃o : Float F⦄ : Type 0 where
  pub le_refl : (a : F) → a ≼ a
  pub le_trans : (a b c : F) → a ≼ b → b ≼ c → a ≼ c
  pub le_total : (a b : F) → o.le a b ≡ false → b ≼ a
  pub lt-eq-not-le : (a b : F) → o.lt a b ≡ not (o.le b a)
  pub le_of_eq : (a b : F) → o.eq a b ≡ true → a ≼ b
  pub add_mono : (a b c d : F) → a ≼ b → c ≼ d → o.add a c ≼ o.add b d
  pub le-add_left : (a b : F) → nought ≼ a → b ≼ o.add a b
  pub le-add_right : (a b : F) → nought ≼ b → a ≼ o.add a b
  pub sub_mono : (a b c d : F) → a ≼ b → c ≼ d → o.sub a d ≼ o.sub b c
  pub sub_nonneg : (a b : F) → b ≼ a → nought ≼ o.sub a b
  pub mul_nonneg : (a b : F) → nought ≼ a → nought ≼ b → nought ≼ o.mul a b
  pub mul_mono : (c a b : F) → nought ≼ c → a ≼ b → o.mul c a ≼ o.mul c b
  pub div_nonneg : (a t : F) → nought ≼ a → nought ≺ t → nought ≼ o.div a t
  pub div_mono : (a b t : F) → a ≼ b → nought ≺ t → o.div a t ≼ o.div b t
  pub div_antitone : (a s t : F) → nought ≼ a → nought ≺ s → s ≼ t → o.div a t ≼ o.div a s
  pub of_nat_mono : (m n : ℕ) → m ≤ n → ◌≼◌ {F = F} (of_nat m) (of_nat n)
  pub decimal_pos : (m k : ℕ) → 0 < m → nought ≺ o.decimal m k
