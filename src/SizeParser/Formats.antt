-- ===== src/SizeParser/Formats.antt =====
-- What `format_size` of src/utils/size_parser.py prints, `parse_size` reads back.
use mathlib.Core.List.{append-nil, append_assoc}
use ca_project.Common.{
  ℕ, zero, suc, ◌+◌, ◌/◌, ◌%◌, ◌^◌, ◌≤◌, ◌<◌, ◌≡◌, refl, sym, ap, ◌∙◌, true, false, List, [], ◌∷◌,
  ◌++◌, map, length, ◌==◌, All, All-append, All-map, arith, ok, Bool-cases, inl, inr,
}
use ca_project.Float.{Float, of_nat}
use ca_project.Common.Text.{codes, is_digit, is_space, span, Stops, span-stop, span-append}
use ca_project.Common.Numerals.{
  show_nat, fixed2, value-fixed2, fraction-two, show_nat-AreDigits, decimals-AreDigits,
  length-show_nat-pos,
}
use ca_project.SizeParser.{
  is_letter, upper, drop_trailing_spaces, normal, unit_in, multiplier, parse_normal, parse_size,
  larger_units, scaled, format_size,
}

-- a character that `strip` and `upper` leave alone
abbrev IsNormal : ℕ → Type 0
IsNormal c = (is_space c ≡ false) × (upper c ≡ c)

drop_trailing_spaces-normal : (xs : List ℕ) → All IsNormal xs → drop_trailing_spaces xs ≡ xs
unfolding drop_trailing_spaces
drop_trailing_spaces-normal [] h = refl
drop_trailing_spaces-normal (c ∷ cs) h = rw (drop_trailing_spaces-normal cs h.1, h.0.0) refl

map-upper : (xs : List ℕ) → All IsNormal xs → map upper xs ≡ xs
map-upper [] h = refl
map-upper (c ∷ cs) h = rw (h.0.1, map-upper cs h.1) refl

stops : (xs : List ℕ) → All IsNormal xs → Stops is_space xs
stops [] h = tt
stops (c ∷ cs) h = h.0.0

normal_lem : (xs : List ℕ) → All IsNormal xs → normal xs ≡ xs
unfolding normal
normal_lem xs h =
    rw (span-stop is_space xs (stops xs h), drop_trailing_spaces-normal xs h, map-upper xs h) refl

digit-IsNormal : (c : ℕ) → is_digit c ≡ true → IsNormal c
digit-IsNormal c h = (ground arith, ground arith)

fixed2-AreNormal : (n : ℕ) → All IsNormal (fixed2 n)
fixed2-AreNormal n =
    All-append IsNormal (show_nat (n / 100)) _
      (All-map (λ c. is_digit c ≡ true) IsNormal digit-IsNormal (show_nat (n / 100))
        (show_nat-AreDigits (n / 100)))
      (
        (refl, refl),
        All-map (λ c. is_digit c ≡ true) IsNormal digit-IsNormal
            ((n / 10 % 10 + 48) ∷ (n % 10 + 48) ∷ []) (decimals-AreDigits n),
      )

letter-IsNormal : (c : ℕ) → is_letter c ≡ true → IsNormal c
letter-IsNormal c h = (ground arith, ground arith)

letter_no_digit : (c : ℕ) → is_letter c ≡ true → is_digit c ≡ false
letter_no_digit c h = ground arith

letter_no_space : (c : ℕ) → is_letter c ≡ true → is_space c ≡ false
letter_no_space c h = ground arith

module _ (F : Type 0) ⦃o : Float F⦄ where
  -- a number with two decimals and its unit
  parse_normal-fixed2 :
      (n u : ℕ) (us : List ℕ)
      → All (λ c. is_letter c ≡ true) (u ∷ us)
      → parse_normal F (fixed2 n ++ u ∷ us)
        ≡ ok (o.trunc (o.mul (o.decimal n 2) (of_nat (multiplier (u ∷ us)))))
  unfolding parse_normal
  parse_normal-fixed2 n u us letters =
      let tail = 46 ∷ (n / 10 % 10 + 48) ∷ (n % 10 + 48) ∷ [] in
      let no_digit : is_digit u ≡ false = letter_no_digit u letters.0 in
      let no_space : is_space u ≡ false = letter_no_space u letters.0 in
      let some_digit : (length (show_nat (n / 100)) == 0) ≡ false =
        ground (arith, length-show_nat-pos (n / 100)) in
      rw
        (
          append_assoc (show_nat (n / 100)) tail (u ∷ us),
          span-append is_digit (show_nat (n / 100)) (tail ++ u ∷ us) (show_nat-AreDigits (n / 100))
              refl,
          fraction-two (n / 10 % 10 + 48) (n % 10 + 48) u us (decimals-AreDigits n) no_digit,
          span-stop is_space (u ∷ us) no_space,
          ap (span is_letter) (sym (append-nil (u ∷ us)))
              ∙ span-append is_letter (u ∷ us) [] letters tt,
          some_digit,
          value-fixed2 n,
        )
        refl

unit_at : ℕ → List ℕ → List (List ℕ) → List ℕ
unit_at zero unit above = unit
unit_at (suc i) unit [] = unit
unit_at (suc i) unit (next ∷ above) = unit_at i next above

unit_at-letters :
    (i : ℕ)
    → i ≤ 4
    → (u : ℕ) × (us : List ℕ) × (unit_at i (codes "B") larger_units ≡ u ∷ us)
      × All (λ c. is_letter c ≡ true) (u ∷ us)
      × (multiplier (u ∷ us) ≡ 1000 ^ i)
unfolding unit_at unit_in
unit_at-letters zero h = (66, [], refl, (refl, tt), refl)
unit_at-letters (suc zero) h = (75, 66 ∷ [], refl, (refl, (refl, tt)), refl)
unit_at-letters (suc (suc zero)) h = (77, 66 ∷ [], refl, (refl, (refl, tt)), refl)
unit_at-letters (suc (suc (suc zero))) h = (71, 66 ∷ [], refl, (refl, (refl, tt)), refl)
unit_at-letters (suc (suc (suc (suc zero)))) h = (84, 66 ∷ [], refl, (refl, (refl, tt)), refl)
unit_at-letters (suc (suc (suc (suc (suc i))))) h = absurd (omega arith)

module _ {F : Type 0} ⦃o : Float F⦄ where
  -- a size after some divisions by 1000
  abbrev pub divided : ℕ → F → F
  divided zero size = size
  divided (suc i) size = divided i (o.div size (of_nat 1000))

  large_from :
      (size : F) (i : ℕ)
      → o.le (of_nat 1000) size ≡ true
      → ((j : ℕ) → j < i → o.le (of_nat 1000) (divided j (o.div size (of_nat 1000))) ≡ true)
      → (j : ℕ) → j < suc i
      → o.le (of_nat 1000) (divided j size) ≡ true
  large_from size i big large zero h = big
  large_from size i big large (suc j) h = large j (omega arith)

  -- The loop divides as long as the size is 1000 or more and a larger unit is left.
  scaled_lem :
      (size : F) (unit : List ℕ) (above : List (List ℕ))
      → (i : ℕ) × (i ≤ length above)
        × (scaled size unit above ≡ (divided i size, unit_at i unit above))
        × ((j : ℕ) → j < i → o.le (of_nat 1000) (divided j size) ≡ true)
        × (i < length above → o.le (of_nat 1000) (divided i size) ≡ false)
  unfolding scaled unit_at
  scaled_lem size unit [] =
      (0, omega arith, refl, (λ j h. absurd (omega arith)), λ h. absurd (omega arith))
  scaled_lem size unit (next ∷ above) = elim (Bool-cases (o.le (of_nat 1000) size)) [
    | inr small ↦ (0, omega arith, rw small refl, (λ j h. absurd (omega arith)), λ h. small)
    | inl big ↦
        let (i, few, same, large, last) = scaled_lem (o.div size (of_nat 1000)) next above in
        (suc i, omega arith, rw big same, large_from size i big large, λ h. last (omega arith))
  ]

  -- What `format_size` prints, `parse_size` reads back: the number that stands there, times a power
  -- of 1000, rounded down to a whole number of bytes. The number is the size, divided by 1000 as
  -- long as it is 1000 or more but at most four times, and printed with two decimals. The size
  -- is not zero.
  pub parse_size-format_size :
      (hundredths : F → ℕ) (n : ℕ)
      → 0 < n
      → (i : ℕ) × (i ≤ 4)
        × ((j : ℕ) → j < i → o.le (of_nat 1000) (divided j (of_nat n)) ≡ true)
        × (i < 4 → o.le (of_nat 1000) (divided i (of_nat n)) ≡ false)
        × (parse_size F (format_size hundredths n)
            ≡ ok (
                o.trunc
                  (o.mul (o.decimal (hundredths (divided i (of_nat n))) 2) (of_nat (1000 ^ i)))))
  unfolding format_size
  parse_size-format_size hundredths n h =
      let (i, few, same, large, last) = scaled_lem (of_nat n) (codes "B") larger_units in
      let (u, us, unit, letters, size) = unit_at-letters i few in
      let printed = fixed2 (hundredths (divided i (of_nat n))) in
      let text : format_size hundredths n ≡ printed ++ u ∷ us = rw (same, unit) (ground arith) in
      let unchanged : normal (printed ++ u ∷ us) ≡ printed ++ u ∷ us =
        normal_lem (printed ++ u ∷ us) (
          All-append IsNormal printed (u ∷ us)
            (fixed2-AreNormal (hundredths (divided i (of_nat n))))
            (All-map (λ c. is_letter c ≡ true) IsNormal letter-IsNormal (u ∷ us) letters)) in
      (
        i,
        few,
        large,
        last,
        ap (λ t. parse_size F t) text
            ∙ ap (parse_normal F) unchanged
            ∙ parse_normal-fixed2 F (hundredths (divided i (of_nat n))) u us letters
            ∙ ap
                (λ m.
                  ok (o.trunc (o.mul (o.decimal (hundredths (divided i (of_nat n))) 2) (of_nat m))))
                size,
      )
