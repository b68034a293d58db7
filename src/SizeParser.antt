-- ===== src/SizeParser.antt =====
-- src/utils/size_parser.py, for texts of ASCII characters, given by their codes.
pub mod Units
pub mod Formats
use ca_project.Common.{
  ℕ, zero, suc, ◌+◌, ◌-◌, ◌*◌, ◌^◌, Bool, true, false, not, ◌&&◌, ◌||◌, List, [], ◌∷◌, ◌++◌, map,
  length, leb, ◌==◌, if◌then◌else◌, Result, ok, raise, value_error, check, ◌>>=◌, ◌>>◌,
}
use ca_project.Common.Text.{codes, is_digit, is_space, span, fraction, value, same}
use ca_project.Common.Numerals.{fixed2}
use ca_project.Common.Int.{ℤ}
use ca_project.Float.{Float, of_nat}

-- after `upper`
abbrev pub is_letter : ℕ → Bool
is_letter c = leb 65 c && leb c 90

abbrev pub upper : ℕ → ℕ
upper c = if leb 97 c && leb c 122 then c - 32 else c

unfoldable pub drop_trailing_spaces : List ℕ → List ℕ
drop_trailing_spaces [] = []
drop_trailing_spaces (c ∷ cs) =
    let rest = drop_trailing_spaces cs in if is_space c && length rest == 0 then [] else c ∷ rest

-- `str(size_str).strip().upper()`
unfoldable pub normal : List ℕ → List ℕ
normal text = map upper (drop_trailing_spaces (span is_space text).1)

-- B, K and KB, M and MB, G and GB, T and TB
abbrev pub units : List (List ℕ × ℕ)
units =
    (66 ∷ [], 1)
    ∷ (75 ∷ [], 1000)
    ∷ (75 ∷ 66 ∷ [], 1000)
    ∷ (77 ∷ [], 1000 ^ 2)
    ∷ (77 ∷ 66 ∷ [], 1000 ^ 2)
    ∷ (71 ∷ [], 1000 ^ 3)
    ∷ (71 ∷ 66 ∷ [], 1000 ^ 3)
    ∷ (84 ∷ [], 1000 ^ 4)
    ∷ (84 ∷ 66 ∷ [], 1000 ^ 4)
    ∷ []

unfoldable pub unit_in : List (List ℕ × ℕ) → List ℕ → ℕ
unit_in [] unit = 1
unit_in ((name, size) ∷ rest) unit = if same name unit then size else unit_in rest unit

-- `units.get(unit_part, 1) if unit_part else 1`
abbrev pub multiplier : List ℕ → ℕ
multiplier = unit_in units

module _ (F : Type 0) ⦃o : Float F⦄ where
  -- the match of `^(\d+(?:\.\d+)?)\s*([A-Z]+)?$`, and what is made of it
  unfoldable pub parse_normal : List ℕ → Result ℤ
  parse_normal text = do
    let whole = span is_digit text
    let part = fraction whole.1
    let unit = span is_letter (span is_space part.1).1
    check (not (length whole.0 == 0)) value_error
    check (length unit.1 == 0) value_error
    ok (
        o.trunc (
          o.mul (o.decimal (value 0 (whole.0 ++ part.0)) (length part.0))
            (of_nat (multiplier unit.0))))

  abbrev pub parse_size : List ℕ → Result ℤ
  parse_size text = parse_normal (normal text)

-- the units of `format_size`, after the first
abbrev pub larger_units : List (List ℕ)
larger_units = codes "KB" ∷ codes "MB" ∷ codes "GB" ∷ codes "TB" ∷ []

module _ {F : Type 0} ⦃o : Float F⦄ where
  -- the loop of `format_size`, from a size in one unit, with the units above it
  unfoldable pub scaled : F → List ℕ → List (List ℕ) → F × List ℕ
  scaled size unit [] = (size, unit)
  scaled size unit (next ∷ above) =
      let rest = scaled (o.div size (of_nat 1000)) next above in
      if o.le (of_nat 1000) size then rest else (size, unit)

  -- `format_size` of a size that is not negative; `hundredths` is the number that `:.2f` prints, in
  -- hundredths.
  unfoldable pub format_size : (F → ℕ) → ℕ → List ℕ
  format_size hundredths size_bytes =
      let found = scaled (of_nat size_bytes) (codes "B") larger_units in
      if size_bytes == 0 then codes "0B" else fixed2 (hundredths found.0) ++ found.1
