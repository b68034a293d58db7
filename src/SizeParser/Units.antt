-- ===== src/SizeParser/Units.antt =====
-- What src/utils/size_parser.py makes of digits and a unit.
use mathlib.Core.List.{append-nil}
use ca_project.Common.{
  ℕ, ◌≡◌, refl, sym, ap, ◌∙◌, Bool, true, false, List, [], ◌∷◌, ◌++◌, length, ◌==◌, All, arith, ok,
}
use ca_project.Float.{Float, of_nat}
use ca_project.Common.Text.{
  is_digit, is_space, span, fraction, value, Stops, span-stop, span-append,
}
use ca_project.SizeParser.{is_letter, multiplier, parse_normal}

letters-stop :
    (test : ℕ → Bool) (us : List ℕ)
    → ((c : ℕ) → is_letter c ≡ true → test c ≡ false)
    → All (λ c. is_letter c ≡ true) us
    → Stops test us
letters-stop test [] apart h = tt
letters-stop test (u ∷ us) apart h = apart u h.0

no_fraction : (us : List ℕ) → All (λ c. is_letter c ≡ true) us → fraction us ≡ ([], us)
unfolding fraction
no_fraction [] h = refl
no_fraction (u ∷ us) h = let letter = h.0 in ground arith

module _ (F : Type 0) ⦃o : Float F⦄ where
  -- A text of digits and then letters parses to the number times what its unit stands for, which is
  -- 1 where there is no unit or one that is not known. There is at least one digit.
  pub parse_units :
      (d : ℕ) (ds us : List ℕ)
      → All (λ c. is_digit c ≡ true) (d ∷ ds)
      → All (λ c. is_letter c ≡ true) us
      → parse_normal F ((d ∷ ds) ++ us)
        ≡ ok (o.trunc (o.mul (of_nat (value 0 (d ∷ ds))) (of_nat (multiplier us))))
  unfolding parse_normal
  parse_units d ds us digits letters =
      let some_digit : (length (d ∷ ds) == 0) ≡ false = ground arith in
      rw
        (
          span-append is_digit (d ∷ ds) us digits
              (letters-stop is_digit us (λ c h. ground arith) letters),
          no_fraction us letters,
          span-stop is_space us (letters-stop is_space us (λ c h. ground arith) letters),
          ap (span is_letter) (sym (append-nil us)) ∙ span-append is_letter us [] letters tt,
          append-nil (d ∷ ds),
          some_digit,
        )
        refl
