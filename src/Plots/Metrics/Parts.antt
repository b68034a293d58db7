-- ===== src/Plots/Metrics/Parts.antt =====
-- The last part of a printed line, as a pattern of src/backup/plot_migrater_metrics.py finds it.
use ca_project.Common.{
  ℕ, ◌≡◌, ◌<◌, refl, ◌∙◌, some, List, [], ◌∷◌, ◌++◌, length, drop, ◌/◌, ◌%◌, ◌+◌, arith,
}
use ca_project.Common.Text.{codes, is_digit, is_space, Stops, search}
use ca_project.Common.Numerals.{
  show_nat, fixed2, show_nat-AreDigits, AreDigits, value-show_nat, length-show_nat-pos,
}
use ca_project.Migrater.Log.{join, copied_part}
use ca_project.Plots.Metrics.{
  Copied, copied_pattern, from_total, from_copied, from_spaces, from_percentage,
}
use ca_project.Plots.Metrics.Lines.{search-hit, some_of-append}
use ca_project.Plots.Metrics.Groups.{number-fixed2}

digits-Stop : (xs tail : List ℕ) → AreDigits xs → 0 < length xs → Stops is_space (xs ++ tail)
digits-Stop [] tail h full = absurd (omega arith)
digits-Stop (x ∷ xs) tail h full = ground (arith, h.0)

module _ (percentage copied total : ℕ) (end : List ℕ) where
  abbrev total_on : List ℕ
  total_on = join (codes " bytes copied)" ∷ []) end

  abbrev copied_on : List ℕ
  copied_on = join (codes "/" ∷ show_nat total ∷ []) total_on

  abbrev spaces_on : List ℕ
  spaces_on = join (show_nat copied ∷ []) copied_on

  -- what is found in the last part of a line
  abbrev pub in_part : Copied
  in_part = record {
    percentage =
        show_nat (percentage / 100) ++ (percentage / 10 % 10 + 48) ∷ (percentage % 10 + 48) ∷ [];
    places = 2;
    copied = copied;
    total = total;
  }

  copied_hit :
      copied_pattern (some 40) (join (codes "[" ∷ fixed2 percentage ∷ codes "%] " ∷ []) spaces_on)
      ≡ some in_part
  copied_hit =
      let digits =
        show_nat (percentage / 100) ++ (percentage / 10 % 10 + 48) ∷ (percentage % 10 + 48) ∷ [] in
      number-fixed2 from_percentage percentage 37 (drop 1 (codes "%] " ++ spaces_on)) refl
      ∙ some_of-append is_space (from_spaces digits 2) (32 ∷ []) spaces_on (refl, tt)
          (digits-Stop (show_nat copied) copied_on (show_nat-AreDigits copied)
            (length-show_nat-pos copied))
          (omega arith)
      ∙ some_of-append is_digit (from_copied digits 2) (show_nat copied) copied_on
          (show_nat-AreDigits copied) refl (length-show_nat-pos copied)
      ∙ some_of-append is_digit (from_total digits 2 (show_nat copied)) (show_nat total) total_on
          (show_nat-AreDigits total) refl (length-show_nat-pos total)
      ∙ values_read digits
    where
      values_read :
          (digits : List ℕ)
          → from_total digits 2 (show_nat copied) (show_nat total) total_on
            ≡ some (record { percentage = digits; places = 2; copied = copied; total = total })
      values_read digits = rw (value-show_nat copied, value-show_nat total) refl

  pub part_found :
      search copied_pattern (some 115) (copied_part percentage copied total end) ≡ some in_part
  part_found =
      search-hit copied_pattern (some 40)
        (join (codes "[" ∷ fixed2 percentage ∷ codes "%] " ∷ []) spaces_on) in_part copied_hit
