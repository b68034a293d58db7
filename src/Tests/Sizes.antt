-- ===== src/Tests/Sizes.antt =====
-- Concrete runs for src/utils/size_parser.py.
use ca_project.Common.{[], ◌∷◌, ok, ◌≡◌, refl, ℕ, ◌*◌, ◌^◌, ◌≤◌, ◌<◌, leb, true, false, arith}
use ca_project.Common.Numerals.{show_nat, show_digits}
use ca_project.Common.Int.{pos}
use ca_project.Float.{of_nat}
use ca_project.Float.Whole.{whole}
use ca_project.Common.Text.{codes, span, fraction, value}
use ca_project.SizeParser.{
  scaled, format_size, unit_in, drop_trailing_spaces, normal, parse_normal, parse_size,
}
use ca_project.SizeParser.Formats.{divided, parse_size-format_size}

-- whole numbers print with no hundredths
abbrev hundredths : ℕ → ℕ
hundredths n = n * 100

parse_size-format_size_example :
    (i : ℕ) × (i ≤ 4)
    × ((j : ℕ) → j < i → leb 1000 (divided j 2_000_000) ≡ true)
    × (i < 4 → leb 1000 (divided i 2_000_000) ≡ false)
    × (parse_size ℕ (format_size hundredths 2_000_000)
        ≡ ok (
            whole.trunc
              (whole.mul (whole.decimal (hundredths (divided i 2_000_000)) 2) (of_nat (1000 ^ i)))))
parse_size-format_size_example = parse_size-format_size hundredths 2_000_000 (omega arith)

-- "2.00MB"
formatted : format_size hundredths 2_000_000 ≡ codes "2.00MB"
unfolding format_size scaled show_nat show_digits
formatted = refl

-- " 5 kb "
spaces_and_case : parse_size ℕ (32 ∷ 53 ∷ 32 ∷ 107 ∷ 98 ∷ 32 ∷ []) ≡ ok (pos 5000)
unfolding value unit_in span drop_trailing_spaces normal fraction parse_normal
spaces_and_case = refl
