-- ===== src/Plots/Ratio.antt =====
-- `parse_migrater_v2` of src/backup/plot_migrater_ratio.py, on the lines of an ASCII log.
pub mod Lines
pub mod Agreement
use ca_project.Common.{
  ℕ, ◌*◌, ◌&&◌, Bool, true, false, Option, none, some, List, [], ◌∷◌, Result, ok, ◌>>=◌,
}
use ca_project.Common.Text.{codes, is_digit, value, same, after, some_of, search}
use ca_project.Float.{Float, of_nat}
use ca_project.Plots.Metrics.{is_word, timestamp_pattern, to_float, bytes_per_mib}

-- The pattern of the timestamp is that of the other script.
abbrev pub word_pattern : Option ℕ → List ℕ → Option (List ℕ)
word_pattern before = after (codes "migrating=") (some_of is_word (λ word rest. some word))

abbrev pub whole_rate_pattern : Option ℕ → List ℕ → Option (List ℕ)
whole_rate_pattern before =
    after (codes "rate=") (some_of is_digit (λ digits. after (codes " B/s") (λ rest. some digits)))

module _ {F : Type 0} ⦃o : Float F⦄ where
  -- `rate_mib`, from what the patterns find
  abbrev pub rate_mib : Bool → Option (List ℕ) → F
  rate_mib true (some digits) = o.div (of_nat (value 0 digits)) bytes_per_mib
  rate_mib true none = o.decimal 0 1
  rate_mib false rate = o.decimal 0 1

  -- the loop over the lines, by the first timestamp, if there has been one
  unfoldable pub read_lines : Option F → List (List ℕ) → Result (List F × List F)
  read_lines start [] = ok ([], [])
  read_lines start (l ∷ ls) = elim (search timestamp_pattern none l) [
    | none ↦ read_lines start ls
    | some text ↦ elim (search word_pattern none l) [
      | none ↦ read_lines start ls
      | some word ↦ do
        current ← to_float text
        let first : F = elim start [ none ↦ current | some t ↦ t ]
        let rate = rate_mib (same word (codes "True")) (search whole_rate_pattern none l)
        rest ← read_lines (some first) ls
        ok (o.sub current first ∷ rest.0, rate ∷ rest.1)
    ]
  ]

  unfoldable pub parse_migrater_v2 : List (List ℕ) → Result (List F × List F)
  parse_migrater_v2 lines = read_lines none lines
