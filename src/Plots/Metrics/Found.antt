-- ===== src/Plots/Metrics/Found.antt =====
-- The rate and the pending bytes that the patterns of src/backup/plot_migrater_metrics.py find in a
-- printed line.
use ca_project.Common.{
  ℕ, ◌≡◌, refl, ap, ◌∙◌, Bool, true, false, Option, none, some, List, [], ◌∷◌, ◌++◌, drop, arith,
}
use ca_project.Common.Int.{ℤ}
use ca_project.Common.Text.{codes, after, is_digit, span, value, search}
use ca_project.Common.Numerals.{show_nat, show_nat-AreDigits, value-show_nat, length-show_nat-pos}
use ca_project.Migrater.Log.{join, show_bool, line}
use ca_project.Plots.Metrics.{rate_pattern, pending_pattern, copied_pattern}
use ca_project.Plots.Metrics.Lines.{
  search-numeral, search-hit, some_of-append, rate-Passes, pending-Passes, copied-Passes,
  show_nat-AreNumeric, pending_on, rate_on, IsBlind, search-rate_on,
}
use ca_project.Plots.Metrics.Groups.{number-whole}

rate-IsBlind : IsBlind rate_pattern
rate-IsBlind = record {
  numeral = rate-Passes;
  comma = λ before cs. ground arith;
  space = λ before cs. ground arith;
  opening = λ t. refl;
  phase = phase;
  epochs = λ t. refl;
  rates = λ t. refl;
}
  where
    phase :
        (b : Bool) (t : List ℕ)
        → search rate_pattern
            (some 44)
            (drop 1 (join (codes ", migrating=" ∷ show_bool b ∷ codes ", epoch=" ∷ []) t))
          ≡ search rate_pattern (some 61) t
    phase true t = refl
    phase false t = refl

pending-IsBlind : IsBlind pending_pattern
pending-IsBlind = record {
  numeral = pending-Passes;
  comma = λ before cs. refl;
  space = λ before cs. refl;
  opening = λ t. refl;
  phase = phase;
  epochs = λ t. refl;
  rates = λ t. refl;
}
  where
    phase :
        (b : Bool) (t : List ℕ)
        → search pending_pattern
            (some 44)
            (drop 1 (join (codes ", migrating=" ∷ show_bool b ∷ codes ", epoch=" ∷ []) t))
          ≡ search pending_pattern (some 61) t
    phase true t = refl
    phase false t = refl

copied-IsBlind : IsBlind copied_pattern
unfolding span
copied-IsBlind = record {
  numeral = copied-Passes;
  comma = λ before cs. refl;
  space = λ before cs. refl;
  opening = λ t. refl;
  phase = phase;
  epochs = λ t. refl;
  rates = λ t. refl;
}
  where
    phase :
        (b : Bool) (t : List ℕ)
        → search copied_pattern
            (some 44)
            (drop 1 (join (codes ", migrating=" ∷ show_bool b ∷ codes ", epoch=" ∷ []) t))
          ≡ search copied_pattern (some 61) t
    phase true t = refl
    phase false t = refl

module _ (ts : ℕ) (m : Bool) (epoch total_epochs configured : ℤ) (rate pending : ℕ)
    (end : List ℕ) where
  pub rate_found :
      search rate_pattern none (line ts m epoch total_epochs configured rate pending end)
      ≡ some (show_nat rate, 0)
  rate_found =
      let after_rate = rate_on ts m epoch total_epochs configured rate pending end in
      search-rate_on ts m epoch total_epochs configured rate pending end rate_pattern rate-IsBlind
      ∙ search-hit rate_pattern (some 32) (join (codes "rate=" ∷ show_nat rate ∷ []) after_rate)
          (show_nat rate, 0)
          (number-whole (λ digits places. after (codes " B/s") (λ rest. some (digits, places)))
            (show_nat rate) 32 (drop 1 after_rate) (show_nat-AreDigits rate) refl
            (λ e. omega (arith, e)) (length-show_nat-pos rate))

  search-pending_on :
      {A : Type 0} (pattern : Option ℕ → List ℕ → Option A)
      → IsBlind pattern
      → ((t : List ℕ)
          → search pattern (some 32) (drop 1 (codes " B/s, rate=" ++ t))
            ≡ search pattern (some 61) t)
      → search pattern none (line ts m epoch total_epochs configured rate pending end)
        ≡ search pattern
            (some 32)
            (drop 1 (rate_on ts m epoch total_epochs configured rate pending end))
  search-pending_on pattern blind rates =
      let after_rate = rate_on ts m epoch total_epochs configured rate pending end in
      search-rate_on ts m epoch total_epochs configured rate pending end pattern blind
      ∙ rates (show_nat rate ++ after_rate)
      ∙ search-numeral pattern blind.numeral (show_nat rate) (some 61) 32 (drop 1 after_rate)
          (show_nat-AreNumeric rate) blind.space

  pub pending_found :
      search pending_pattern none (line ts m epoch total_epochs configured rate pending end)
      ≡ some pending
  pending_found =
      let after_pending = pending_on ts m epoch total_epochs configured rate pending end in
      search-pending_on pending_pattern pending-IsBlind (λ t. refl)
      ∙ search-hit pending_pattern (some 32)
          (join (codes "pending=" ∷ show_nat pending ∷ []) after_pending) pending
          (some_of-append is_digit
              (λ digits. after (codes " bytes") (λ rest. some (value 0 digits))) (show_nat pending)
              after_pending (show_nat-AreDigits pending) refl (length-show_nat-pos pending)
            ∙ ap some (value-show_nat pending))

  -- The copied bytes are looked for in what follows the pending bytes.
  pub search-end :
      search copied_pattern none (line ts m epoch total_epochs configured rate pending end)
      ≡ search copied_pattern (some 115) end
  unfolding span
  search-end =
      let after_pending = pending_on ts m epoch total_epochs configured rate pending end in
      search-pending_on copied_pattern copied-IsBlind (λ t. refl)
      ∙ search-numeral copied_pattern copied-Passes (show_nat pending) (some 61) 32
          (drop 1 after_pending) (show_nat-AreNumeric pending) (λ before cs. refl)
