-- ===== src/Plots/Metrics.antt =====
-- `parse_migrater_metrics` of src/backup/plot_migrater_metrics.py, on the lines of an ASCII log.
pub mod Lines
pub mod Groups
pub mod Found
pub mod Parts
pub mod Rows
pub mod ReadBack
use ca_project.Common.{
  ℕ, ◌*◌, Bool, true, false, not, ◌&&◌, ◌||◌, Option, none, some, List, [], ◌∷◌, ◌++◌, length, leb,
  ◌==◌, if◌then◌else◌, Result, ok, raise, value_error, ◌>>=◌,
}
use ca_project.Common.Text.{
  codes, is_digit, is_space, span, value, strip, after, some_of, number, search,
}
use ca_project.Float.{Float, of_nat}

-- `[\d.]`
abbrev pub is_decimal : ℕ → Bool
is_decimal c = is_digit c || c == 46

-- `\w`
abbrev pub is_word : ℕ → Bool
is_word c = is_digit c || (leb 65 c && leb c 90) || (leb 97 c && leb c 122) || c == 95

-- `\b` before a letter, by the character before it
abbrev pub at_boundary : Option ℕ → Bool
at_boundary none = true
at_boundary (some c) = not (is_word c)

abbrev pub timestamp_pattern : Option ℕ → List ℕ → Option (List ℕ)
timestamp_pattern before = after (codes "timestamp=") (some_of is_decimal (λ text rest. some text))

-- `(True|False)`
abbrev pub truth : List ℕ → Option Bool
truth text = elim (strip (codes "True") text) [
  | none ↦ after (codes "False") (λ rest. some false) text
  | some rest ↦ some true
]

abbrev pub migrating_pattern : Option ℕ → List ℕ → Option Bool
migrating_pattern before = after (codes "migrating=") truth

-- The group as its digits and the number of its decimal places.
abbrev pub rate_pattern : Option ℕ → List ℕ → Option (List ℕ × ℕ)
rate_pattern before text =
    let found =
      after (codes "rate=")
        (number (λ digits places. after (codes " B/s") (λ rest. some (digits, places)))) text in
    if at_boundary before then found else none

abbrev pub pending_pattern : Option ℕ → List ℕ → Option ℕ
pending_pattern before =
    after (codes "pending=")
      (some_of is_digit (λ digits. after (codes " bytes") (λ rest. some (value 0 digits))))

-- what `copied_pattern` finds
pub record Copied : Type 0 where
  pub percentage : List ℕ
  pub places : ℕ
  pub copied : ℕ
  pub total : ℕ

-- the pattern from each of its groups on
abbrev pub from_total : List ℕ → ℕ → List ℕ → List ℕ → List ℕ → Option Copied
from_total percentage places copied total = after (codes " bytes copied") (λ rest. some (record {
  percentage = percentage;
  places = places;
  copied = value 0 copied;
  total = value 0 total;
}))

abbrev pub from_copied : List ℕ → ℕ → List ℕ → List ℕ → Option Copied
from_copied percentage places copied =
    after (codes "/") (some_of is_digit (from_total percentage places copied))

abbrev pub from_spaces : List ℕ → ℕ → List ℕ → List ℕ → Option Copied
from_spaces percentage places spaces = some_of is_digit (from_copied percentage places)

abbrev pub from_percentage : List ℕ → ℕ → List ℕ → Option Copied
from_percentage percentage places =
    after (codes "%]") (some_of is_space (from_spaces percentage places))

abbrev pub copied_pattern : Option ℕ → List ℕ → Option Copied
copied_pattern before = after (codes "[") (number from_percentage)

-- the dict that the function returns
pub record Metrics (F : Type 0) : Type 0 where
  pub time : List F
  pub effective_rate_mib : List F
  pub pending_bytes : List (Option ℕ)
  pub copied_bytes : List (Option ℕ)
  pub total_bytes : List (Option ℕ)
  pub percentages : List (Option F)

module _ {F : Type 0} where
  abbrev pub no_metrics : Metrics F
  no_metrics = record {
    time = [];
    effective_rate_mib = [];
    pending_bytes = [];
    copied_bytes = [];
    total_bytes = [];
    percentages = [];
  }

module _ {F : Type 0} ⦃o : Float F⦄ where
  -- `float(text)` of digits and points
  unfoldable pub to_float : List ℕ → Result F
  to_float text =
      let whole = span is_digit text in
      elim whole.1 [
        | [] ↦ if length whole.0 == 0 then raise value_error else ok (o.decimal (value 0 whole.0) 0)
        | point ∷ rest ↦
            let part = span is_digit rest in
            let digits = whole.0 ++ part.0 in
            if length digits == 0 || not (length part.1 == 0)
            then raise value_error
            else ok (o.decimal (value 0 digits) (length part.0))
      ]

  abbrev pub bytes_per_mib : F
  bytes_per_mib = of_nat (1024 * 1024)

  -- `effective_rate_mib`, from what the patterns find
  abbrev pub effective_rate : Bool → Option (List ℕ × ℕ) → F
  effective_rate true (some (digits, places)) =
      o.div (o.decimal (value 0 digits) places) bytes_per_mib
  effective_rate true none = o.decimal 0 1
  effective_rate false rate = o.decimal 0 1

  -- the row of one line, before those of the lines after it
  abbrev pub add_row : F → F → Option ℕ → Option Copied → Metrics F → Metrics F
  add_row relative_time rate pending found rest = record {
    time = relative_time ∷ rest.time;
    effective_rate_mib = rate ∷ rest.effective_rate_mib;
    pending_bytes = pending ∷ rest.pending_bytes;
    copied_bytes = elim found [ none ↦ none | some x ↦ some x.copied ] ∷ rest.copied_bytes;
    total_bytes = elim found [ none ↦ none | some x ↦ some x.total ] ∷ rest.total_bytes;
    percentages =
        elim found [ none ↦ none | some x ↦ some (o.decimal (value 0 x.percentage) x.places) ]
        ∷ rest.percentages;
  }

  abbrev pub line_row : Bool → List ℕ → F → Metrics F → Metrics F
  line_row migrating l relative_time =
      add_row relative_time (effective_rate migrating (search rate_pattern none l))
        (search pending_pattern none l) (search copied_pattern none l)

  -- The loop over the lines, by the first timestamp, if there has been one, and the synthetic one.
  unfoldable pub parse_lines : F → Option F → F → List (List ℕ) → Result (Metrics F)
  parse_lines fallback_interval start synthetic [] = ok no_metrics
  parse_lines fallback_interval start synthetic (l ∷ ls) = elim (search migrating_pattern none l) [
    | none ↦ parse_lines fallback_interval start synthetic ls
    | some migrating ↦ elim (search timestamp_pattern none l) [
      | none ↦ do
        rest ← parse_lines fallback_interval start (o.add synthetic fallback_interval) ls
        ok (line_row migrating l synthetic rest)
      | some text ↦ do
        current ← to_float text
        let first : F = elim start [ none ↦ current | some t ↦ t ]
        rest ← parse_lines fallback_interval (some first) synthetic ls
        ok (line_row migrating l (o.sub current first) rest)
    ]
  ]

  unfoldable pub parse_migrater_metrics : F → List (List ℕ) → Result (Metrics F)
  parse_migrater_metrics fallback_interval lines =
      parse_lines fallback_interval none (o.decimal 0 1) lines
