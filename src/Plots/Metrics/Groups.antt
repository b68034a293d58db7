-- ===== src/Plots/Metrics/Groups.antt =====
-- What the group of a number in the patterns of src/backup/plot_migrater_metrics.py takes.
use mathlib.Core.List.{append-nil, append_assoc}
use ca_project.Common.{
  ℕ, ◌≡◌, ◌≢◌, ◌<◌, refl, false, Option, List, [], ◌∷◌, ◌++◌, length, ◌/◌, ◌%◌, ◌+◌, arith,
}
use ca_project.Common.Text.{number, is_digit, fraction, span-append}
use ca_project.Common.Numerals.{
  show_nat, fixed2, fraction-two, show_nat-AreDigits, AreDigits, decimals-AreDigits,
  length-show_nat-pos,
}

module _ {A : Type 0} (next : List ℕ → ℕ → List ℕ → Option A) where
  pub number-whole :
      (xs : List ℕ) (c : ℕ) (cs : List ℕ)
      → AreDigits xs
      → is_digit c ≡ false
      → c ≢ 46
      → 0 < length xs
      → number next (xs ++ c ∷ cs) ≡ next xs 0 (c ∷ cs)
  unfolding fraction
  number-whole xs c cs h stop differs full =
      rw (span-append is_digit xs (c ∷ cs) h stop) (ground (arith, append-nil xs))

  pub number-fixed2 :
      (n c : ℕ) (cs : List ℕ)
      → is_digit c ≡ false
      → number next (fixed2 n ++ c ∷ cs)
        ≡ next (show_nat (n / 100) ++ (n / 10 % 10 + 48) ∷ (n % 10 + 48) ∷ []) 2 (c ∷ cs)
  number-fixed2 n c cs stop =
      let tail = 46 ∷ (n / 10 % 10 + 48) ∷ (n % 10 + 48) ∷ [] in
      rw
        (
          append_assoc (show_nat (n / 100)) tail (c ∷ cs),
          span-append is_digit (show_nat (n / 100)) (tail ++ c ∷ cs) (show_nat-AreDigits (n / 100))
              refl,
          fraction-two (n / 10 % 10 + 48) (n % 10 + 48) c cs (decimals-AreDigits n) stop,
        )
        (ground (arith, length-show_nat-pos (n / 100)))
