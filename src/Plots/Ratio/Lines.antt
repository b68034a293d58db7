-- ===== src/Plots/Ratio/Lines.antt =====
-- What the patterns of src/backup/plot_migrater_ratio.py find in a line that the migrater prints.
use ca_project.Common.{
  ℕ, ◌≡◌, refl, ap, ◌∙◌, Bool, true, false, Option, none, some, List, [], ◌∷◌, drop, arith, ok,
  ◌>>=◌, if◌then◌else◌,
}
use ca_project.Common.Int.{ℤ}
use ca_project.Common.Text.{codes, is_digit, span, same, search, after}
use ca_project.Common.Numerals.{
  show_nat, show_int, fixed2, show_nat-AreDigits, value-show_nat, length-show_nat-pos,
}
use ca_project.Float.{Float, of_nat}
use ca_project.Migrater.Log.{join, line, show_bool}
use ca_project.Plots.Metrics.{timestamp_pattern, to_float, bytes_per_mib}
use ca_project.Plots.Metrics.Lines.{
  is_numeric, Passes, IsBlind, search-numeral, search-hit, some_of-append, search-rate_on,
  migrating_on, epoch_on, rate_on, timestamp_found, fixed2-AreNumeric,
}
use ca_project.Plots.Metrics.Rows.{to_float-fixed2}
use ca_project.Plots.Ratio.{word_pattern, whole_rate_pattern, rate_mib, read_lines}

whole_rate-Passes : (c : ℕ) → is_numeric c ≡ true → Passes whole_rate_pattern c
whole_rate-Passes c h before cs = ground arith

word-Passes : (c : ℕ) → is_numeric c ≡ true → Passes word_pattern c
word-Passes c h before cs = ground arith

whole_rate-IsBlind : IsBlind whole_rate_pattern
whole_rate-IsBlind = record {
  numeral = whole_rate-Passes;
  comma = λ before cs. refl;
  space = λ before cs. refl;
  opening = λ t. refl;
  phase = phase;
  epochs = λ t. refl;
  rates = λ t. refl;
}
  where
    phase :
        (b : Bool) (t : List ℕ)
        → search whole_rate_pattern
            (some 44)
            (drop 1 (join (codes ", migrating=" ∷ show_bool b ∷ codes ", epoch=" ∷ []) t))
          ≡ search whole_rate_pattern (some 61) t
    phase true t = refl
    phase false t = refl

module _ (ts : ℕ) (m : Bool) (epoch total_epochs configured : ℤ) (rate pending : ℕ)
    (end : List ℕ) where
  word_found :
      search word_pattern none (line ts m epoch total_epochs configured rate pending end)
      ≡ some (show_bool m)
  unfolding span
  word_found =
      search-numeral word_pattern word-Passes (fixed2 ts) (some 61) 44
        (drop 1 (migrating_on ts m epoch total_epochs configured rate pending end))
        (fixed2-AreNumeric ts) (λ before cs. refl)
      ∙ hit m (
          drop 1 (
            join (codes ", epoch=" ∷ show_int epoch ∷ [])
              (epoch_on ts m epoch total_epochs configured rate pending end)))
    where
      hit :
          (b : Bool) (t : List ℕ)
          → search word_pattern
              (some 44)
              (drop 1 (join (codes ", migrating=" ∷ show_bool b ∷ []) (44 ∷ t)))
            ≡ some (show_bool b)
      hit true t = refl
      hit false t = refl

  whole_rate_found :
      search whole_rate_pattern none (line ts m epoch total_epochs configured rate pending end)
      ≡ some (show_nat rate)
  whole_rate_found =
      let after_rate = rate_on ts m epoch total_epochs configured rate pending end in
      search-rate_on ts m epoch total_epochs configured rate pending end whole_rate_pattern
        whole_rate-IsBlind
      ∙ search-hit whole_rate_pattern (some 32)
          (join (codes "rate=" ∷ show_nat rate ∷ []) after_rate) (show_nat rate)
          (some_of-append is_digit (λ digits. after (codes " B/s") (λ rest. some digits))
            (show_nat rate) after_rate (show_nat-AreDigits rate) refl (length-show_nat-pos rate))

module _ {F : Type 0} ⦃o : Float F⦄ where
  read_lines-found :
      (start : Option F) (t : F) (text word digits l : List ℕ) (ls : List (List ℕ))
      → search timestamp_pattern none l ≡ some text
      → search word_pattern none l ≡ some word
      → to_float text ≡ ok t
      → search whole_rate_pattern none l ≡ some digits
      → let first : F = elim start [ none ↦ t | some s ↦ s ] in
        read_lines start (l ∷ ls) ≡ (
          read_lines (some first) ls >>= (λ rest.
            ok
              (o.sub t first ∷ rest.0, rate_mib (same word (codes "True")) (some digits) ∷ rest.1)))
  unfolding read_lines
  read_lines-found start t text word digits l ls at migrating float speed =
      rw (read_lines, at, migrating, float, speed) refl

  rate_mib-show_nat :
      (m : Bool) (rate : ℕ)
      → rate_mib {F = F} (same (show_bool m) (codes "True")) (some (show_nat rate))
        ≡ (if m then o.div (of_nat rate) bytes_per_mib else o.decimal 0 1)
  rate_mib-show_nat true rate = ap (λ n. o.div (o.decimal n 0) bytes_per_mib) (value-show_nat rate)
  rate_mib-show_nat false rate = refl

  pub read_lines-line :
      (start : Option F) (ts : ℕ) (m : Bool) (epoch total_epochs configured : ℤ) (rate pending : ℕ)
      (end : List ℕ) (ls : List (List ℕ))
      → let first : F = elim start [ none ↦ o.decimal ts 2 | some s ↦ s ] in
        let shown_rate : F = if m then o.div (of_nat rate) bytes_per_mib else o.decimal 0 1 in
        read_lines start (line ts m epoch total_epochs configured rate pending end ∷ ls) ≡ (
          read_lines (some first) ls
          >>= (λ rest. ok (o.sub (o.decimal ts 2) first ∷ rest.0, shown_rate ∷ rest.1)))
  read_lines-line start ts m epoch total_epochs configured rate pending end ls =
      let first : F = elim start [ none ↦ o.decimal ts 2 | some s ↦ s ] in
      read_lines-found start (o.decimal ts 2) (fixed2 ts) (show_bool m) (show_nat rate)
        (line ts m epoch total_epochs configured rate pending end) ls
        (timestamp_found ts m epoch total_epochs configured rate pending end)
        (word_found ts m epoch total_epochs configured rate pending end) (to_float-fixed2 ts)
        (whole_rate_found ts m epoch total_epochs configured rate pending end)
      ∙ ap
          (λ r.
            read_lines (some first) ls
            >>= (λ rest. ok (o.sub (o.decimal ts 2) first ∷ rest.0, r ∷ rest.1)))
          (rate_mib-show_nat m rate)
