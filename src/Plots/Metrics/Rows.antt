-- ===== src/Plots/Metrics/Rows.antt =====
-- The row that src/backup/plot_migrater_metrics.py makes of a printed line.
use mathlib.Core.Path.{fun_ext}
use ca_project.Common.{
  ℕ, ◌≡◌, refl, ap, ◌∙◌, Bool, true, false, Option, none, some, List, [], ◌∷◌, ◌++◌, length, ◌==◌,
  length-append, ◌/◌, ◌%◌, ◌+◌, arith, ok, ◌>>=◌, if◌then◌else◌,
}
use ca_project.Common.Int.{ℤ}
use ca_project.Common.Text.{is_digit, span, search, span-append}
use ca_project.Common.Numerals.{
  show_nat, fixed2, show_nat-AreDigits, decimals-AreDigits, value-show_nat, value-fixed2,
}
use ca_project.Float.{Float, of_nat}
use ca_project.Migrater.Log.{line, percentage}
use ca_project.Plots.Metrics.{
  Copied, timestamp_pattern, migrating_pattern, rate_pattern, pending_pattern, copied_pattern,
  Metrics, add_row, to_float, bytes_per_mib, effective_rate, parse_lines,
}
use ca_project.Plots.Metrics.Lines.{timestamp_found, migrating_found}
use ca_project.Plots.Metrics.Found.{rate_found, pending_found, search-end}
use ca_project.Plots.Metrics.Parts.{in_part}

module _ {F : Type 0} ⦃o : Float F⦄ where
  pub to_float-fixed2 : (n : ℕ) → to_float {F = F} (fixed2 n) ≡ ok (o.decimal n 2)
  unfolding to_float
  to_float-fixed2 n =
      let tail = (n / 10 % 10 + 48) ∷ (n % 10 + 48) ∷ [] in
      let whole : span is_digit (fixed2 n) ≡ (show_nat (n / 100), 46 ∷ tail) =
        span-append is_digit (show_nat (n / 100)) (46 ∷ tail) (show_nat-AreDigits (n / 100)) refl in
      let decimals : span is_digit tail ≡ (tail, []) =
        span-append is_digit tail [] (decimals-AreDigits n) tt in
      let size : (length (show_nat (n / 100) ++ tail) == 0) ≡ false =
        ground (arith, length-append (show_nat (n / 100)) tail) in
      rw (to_float, whole, decimals, whole, size, value-fixed2 n) refl

  -- A line in which all is found but, it may be, the copied bytes.
  parse_lines-found :
      (fallback : F) (start : Option F) (synthetic t : F) (m : Bool) (text : List ℕ)
      (rate : List ℕ × ℕ) (pending : ℕ) (x : Option Copied) (l : List ℕ) (ls : List (List ℕ))
      → search migrating_pattern none l ≡ some m
      → search timestamp_pattern none l ≡ some text
      → to_float text ≡ ok t
      → search rate_pattern none l ≡ some rate
      → search pending_pattern none l ≡ some pending
      → search copied_pattern none l ≡ x
      → let first : F = elim start [ none ↦ t | some s ↦ s ] in
        parse_lines fallback start synthetic (l ∷ ls) ≡ (
          parse_lines fallback (some first) synthetic ls >>= (λ rest.
            ok (add_row (o.sub t first) (effective_rate m (some rate)) (some pending) x rest)))
  unfolding parse_lines
  parse_lines-found fallback start synthetic t m text rate pending x l ls migrating at float speed
        left copied =
      rw (parse_lines, migrating, at, float, speed, left, copied) refl

  -- what `effective_rate` makes of a printed rate
  effective_rate-show_nat :
      (m : Bool) (rate : ℕ)
      → effective_rate {F = F} m (some (show_nat rate, 0))
        ≡ (if m then o.div (of_nat rate) bytes_per_mib else o.decimal 0 1)
  effective_rate-show_nat true rate =
      ap (λ n. o.div (o.decimal n 0) bytes_per_mib) (value-show_nat rate)
  effective_rate-show_nat false rate = refl

  -- The line of a migrater; `put` adds its row.
  pub parse_lines-line :
      (fallback : F) (start : Option F) (synthetic : F) (ts : ℕ) (m : Bool)
      (epoch total_epochs configured : ℤ) (rate pending : ℕ) (end : List ℕ) (x : Option Copied)
      (put : F → Metrics F → Metrics F)
      → search copied_pattern (some 115) end ≡ x
      → ((first : F) (rest : Metrics F)
          → add_row
              (o.sub (o.decimal ts 2) first)
              (if m then o.div (of_nat rate) bytes_per_mib else o.decimal 0 1)
              (some pending)
              x
              rest
            ≡ put first rest)
      → (ls : List (List ℕ))
      → let first : F = elim start [ none ↦ o.decimal ts 2 | some s ↦ s ] in
        parse_lines fallback start synthetic
          (line ts m epoch total_epochs configured rate pending end ∷ ls)
        ≡ (parse_lines fallback (some first) synthetic ls >>= (λ rest. ok (put first rest)))
  parse_lines-line fallback start synthetic ts m epoch total_epochs configured rate pending end x
        put h same ls =
      let first : F = elim start [ none ↦ o.decimal ts 2 | some s ↦ s ] in
      parse_lines-found fallback start synthetic (o.decimal ts 2) m (fixed2 ts) (show_nat rate, 0)
        pending x (line ts m epoch total_epochs configured rate pending end) ls
        (migrating_found ts m epoch total_epochs configured rate pending end)
        (timestamp_found ts m epoch total_epochs configured rate pending end) (to_float-fixed2 ts)
        (rate_found ts m epoch total_epochs configured rate pending end)
        (pending_found ts m epoch total_epochs configured rate pending end)
        (search-end ts m epoch total_epochs configured rate pending end ∙ h)
      ∙ ap (λ next. parse_lines fallback (some first) synthetic ls >>= next)
          (fun_ext (λ rest. ap ok (
            ap (λ r. add_row (o.sub (o.decimal ts 2) first) r (some pending) x rest)
              (effective_rate-show_nat m rate)
            ∙ same first rest)))

  -- the row of a line with its last part
  pub add_row-part :
      (t r : F) (pending percentage copied total : ℕ) (end : List ℕ) (rest : Metrics F)
      → add_row t r (some pending) (some (in_part percentage copied total end)) rest ≡ record {
        time = t ∷ rest.time;
        effective_rate_mib = r ∷ rest.effective_rate_mib;
        pending_bytes = some pending ∷ rest.pending_bytes;
        copied_bytes = some copied ∷ rest.copied_bytes;
        total_bytes = some total ∷ rest.total_bytes;
        percentages = some (o.decimal percentage 2) ∷ rest.percentages;
      }
  add_row-part t r pending percentage copied total end rest =
      ap
        (λ v. record {
          time = t ∷ rest.time;
          effective_rate_mib = r ∷ rest.effective_rate_mib;
          pending_bytes = some pending ∷ rest.pending_bytes;
          copied_bytes = some copied ∷ rest.copied_bytes;
          total_bytes = some total ∷ rest.total_bytes;
          percentages = some (o.decimal v 2) ∷ rest.percentages;
        })
        (value-fixed2 percentage)
