-- ===== src/Plots/Metrics/Lines.antt =====
-- What the patterns of src/backup/plot_migrater_metrics.py find in a line that the migrater prints.
use ca_project.Common.{
  ℕ, ◌≡◌, ◌<◌, refl, ◌∙◌, Bool, true, false, ◌||◌, Option, none, some, List, [], ◌∷◌, ◌++◌, length,
  ◌==◌, All, All-map, All-append, length-append, drop, ◌/◌, ◌%◌, ◌+◌, arith,
}
use ca_project.Common.Int.{ℤ, pos, negsuc}
use ca_project.Common.Text.{codes, some_of, is_digit, search, Stops, span-append}
use ca_project.Common.Numerals.{
  show_nat, show_int, fixed2, show_nat-AreDigits, AreDigits, decimals-AreDigits,
}
use ca_project.Migrater.Log.{join, line, show_bool}
use ca_project.Plots.Metrics.{
  is_decimal, timestamp_pattern, migrating_pattern, rate_pattern, pending_pattern, copied_pattern,
}

-- what numerals are made of
abbrev pub is_numeric : ℕ → Bool
is_numeric c = is_digit c || c == 46 || c == 45

abbrev pub AreNumeric : List ℕ → Type 0
AreNumeric xs = All (λ c. is_numeric c ≡ true) xs

digits-AreNumeric : (xs : List ℕ) → AreDigits xs → AreNumeric xs
digits-AreNumeric xs h = All-map _ _ (λ x d. ground arith) xs h

pub show_nat-AreNumeric : (n : ℕ) → AreNumeric (show_nat n)
show_nat-AreNumeric n = digits-AreNumeric (show_nat n) (show_nat-AreDigits n)

show_int-AreNumeric : (z : ℤ) → AreNumeric (show_int z)
show_int-AreNumeric (pos n) = show_nat-AreNumeric n
show_int-AreNumeric (negsuc n) = (refl, show_nat-AreNumeric _)

-- No match starts with the character.
abbrev pub Passes : {A : Type 0} → (Option ℕ → List ℕ → Option A) → ℕ → Type 0
Passes pattern c = (before : Option ℕ) (cs : List ℕ) → pattern before (c ∷ cs) ≡ none

module _ {A : Type 0} (pattern : Option ℕ → List ℕ → Option A) where
  -- Neither a numeral nor the character after it starts a match.
  pub search-numeral :
      ((c : ℕ) → is_numeric c ≡ true → Passes pattern c)
      → (xs : List ℕ) (before : Option ℕ) (c : ℕ) (cs : List ℕ) → AreNumeric xs
      → Passes pattern c
      → search pattern before (xs ++ c ∷ cs) ≡ search pattern (some c) cs
  search-numeral passes [] before c cs h last = rw (last before cs) refl
  search-numeral passes (x ∷ xs) before c cs h last =
      rw (passes x h.0 before (xs ++ c ∷ cs)) (search-numeral passes xs (some x) c cs h.1 last)

  pub search-hit :
      (before : Option ℕ) (cs : List ℕ) (a : A)
      → pattern before cs ≡ some a
      → search pattern before cs ≡ some a
  search-hit before [] a h = h
  search-hit before (c ∷ cs) a h = rw (h, search) refl

-- A group takes the characters up to one that fails its test.
pub some_of-append :
    {A : Type 0} (test : ℕ → Bool) (next : List ℕ → List ℕ → Option A) (xs tail : List ℕ)
    → All (λ c. test c ≡ true) xs
    → Stops test tail
    → 0 < length xs
    → some_of test next (xs ++ tail) ≡ next xs tail
some_of-append test next xs tail h stop full = rw (span-append test xs tail h stop) (ground arith)

fixed2-AreDecimal : (n : ℕ) → All (λ c. is_decimal c ≡ true) (fixed2 n)
fixed2-AreDecimal n =
    let (tens, ones) = decimals-AreDigits n in
    All-append _ (show_nat (n / 100)) _
      (All-map _ _ (λ x d. ground arith) (show_nat (n / 100)) (show_nat-AreDigits (n / 100)))
      (refl, (ground arith, (ground arith, tt)))

pub fixed2-AreNumeric : (n : ℕ) → AreNumeric (fixed2 n)
fixed2-AreNumeric n = All-map _ _ (λ x d. ground arith) (fixed2 n) (fixed2-AreDecimal n)

length-fixed2-pos : (n : ℕ) → 0 < length (fixed2 n)
length-fixed2-pos n =
    omega (arith, length-append (show_nat (n / 100)) (46 ∷ (n / 10 % 10 + 48) ∷ (n % 10 + 48) ∷ []))

timestamp-Passes : (c : ℕ) → is_numeric c ≡ true → Passes timestamp_pattern c
timestamp-Passes c h before cs = ground arith

migrating-Passes : (c : ℕ) → is_numeric c ≡ true → Passes migrating_pattern c
migrating-Passes c h before cs = ground arith

pub rate-Passes : (c : ℕ) → is_numeric c ≡ true → Passes rate_pattern c
rate-Passes c h before cs = ground arith

pub pending-Passes : (c : ℕ) → is_numeric c ≡ true → Passes pending_pattern c
pending-Passes c h before cs = ground arith

pub copied-Passes : (c : ℕ) → is_numeric c ≡ true → Passes copied_pattern c
copied-Passes c h before cs = ground arith

-- A pattern that matches nowhere before the rate.
module _ {A : Type 0} (pattern : Option ℕ → List ℕ → Option A) where
  pub record IsBlind : Type 0 where
    pub numeral : (c : ℕ) → is_numeric c ≡ true → Passes pattern c
    pub comma : Passes pattern 44
    pub space : Passes pattern 32
    pub opening :
        (t : List ℕ)
        → search pattern none (codes "[migrater] timestamp=" ++ t) ≡ search pattern (some 61) t
    pub phase :
        (b : Bool) (t : List ℕ)
        → search pattern
            (some 44)
            (drop 1 (join (codes ", migrating=" ∷ show_bool b ∷ codes ", epoch=" ∷ []) t))
          ≡ search pattern (some 61) t
    pub epochs :
        (t : List ℕ)
        → search pattern (some 44) (drop 1 (codes ", total_epochs=" ++ t))
          ≡ search pattern (some 61) t
    pub rates :
        (t : List ℕ)
        → search pattern (some 44) (drop 1 (codes ", configured=" ++ t))
          ≡ search pattern (some 61) t

module _ (ts : ℕ) (m : Bool) (epoch total_epochs configured : ℤ) (rate pending : ℕ)
    (end : List ℕ) where
  -- the rest of a line from each of its numerals on
  abbrev pub pending_on : List ℕ
  pending_on = join (codes " bytes" ∷ []) end

  abbrev pub rate_on : List ℕ
  rate_on = join (codes " B/s, pending=" ∷ show_nat pending ∷ []) pending_on

  abbrev pub configured_on : List ℕ
  configured_on = join (codes " B/s, rate=" ∷ show_nat rate ∷ []) rate_on

  abbrev total_on : List ℕ
  total_on = join (codes ", configured=" ∷ show_int configured ∷ []) configured_on

  abbrev pub epoch_on : List ℕ
  epoch_on = join (codes ", total_epochs=" ∷ show_int total_epochs ∷ []) total_on

  abbrev pub migrating_on : List ℕ
  migrating_on =
      join (codes ", migrating=" ∷ show_bool m ∷ codes ", epoch=" ∷ show_int epoch ∷ []) epoch_on

  pub timestamp_found :
      search timestamp_pattern none (line ts m epoch total_epochs configured rate pending end)
      ≡ some (fixed2 ts)
  timestamp_found =
      search-hit timestamp_pattern (some 32)
        (join (codes "timestamp=" ∷ fixed2 ts ∷ []) migrating_on) (fixed2 ts)
        (some_of-append is_decimal (λ text rest. some text) (fixed2 ts) migrating_on
          (fixed2-AreDecimal ts) refl (length-fixed2-pos ts))

  pub migrating_found :
      search migrating_pattern none (line ts m epoch total_epochs configured rate pending end)
      ≡ some m
  migrating_found =
      search-numeral migrating_pattern migrating-Passes (fixed2 ts) (some 61) 44
        (drop 1 migrating_on) (fixed2-AreNumeric ts) (λ before cs. refl)
      ∙ hit m (join (codes ", epoch=" ∷ show_int epoch ∷ []) epoch_on)
    where
      hit :
          (b : Bool) (t : List ℕ)
          → search migrating_pattern
              (some 44)
              (drop 1 (join (codes ", migrating=" ∷ show_bool b ∷ []) t))
            ≡ some b
      hit true t = refl
      hit false t = refl

  module _ {A : Type 0} (pattern : Option ℕ → List ℕ → Option A) where
    pub search-rate_on :
        IsBlind pattern
        → search pattern none (line ts m epoch total_epochs configured rate pending end)
          ≡ search pattern (some 32) (drop 1 configured_on)
    search-rate_on h =
        let pass = search-numeral pattern h.numeral in
        h.opening (fixed2 ts ++ migrating_on)
        ∙ pass (fixed2 ts) (some 61) 44 (drop 1 migrating_on) (fixed2-AreNumeric ts) h.comma
        ∙ h.phase m (show_int epoch ++ epoch_on)
        ∙ pass (show_int epoch) (some 61) 44 (drop 1 epoch_on) (show_int-AreNumeric epoch) h.comma
        ∙ h.epochs (show_int total_epochs ++ total_on)
        ∙ pass (show_int total_epochs) (some 61) 44 (drop 1 total_on)
            (show_int-AreNumeric total_epochs) h.comma
        ∙ h.rates (show_int configured ++ configured_on)
        ∙ pass (show_int configured) (some 61) 32 (drop 1 configured_on)
            (show_int-AreNumeric configured) h.space
