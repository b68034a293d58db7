-- ===== src/Common/Text.antt =====
-- Texts of ASCII characters, as lists of their codes, and the pieces of the patterns that the program
-- matches them with. No pattern of it has a repetition that the piece after it could begin in, so none
-- ever gives a character back.
use Prim.Native.Nat.{ℕ, ◌+◌, ◌-◌, ◌*◌}
use Prim.Native.String.{String}
use Prim.Native.String as Str
use Prim.Native.Char.{code}
use mathlib.Core.Path.{◌≡◌, refl}
use mathlib.Core.List.{List, [], ◌∷◌, ◌++◌}
use mathlib.Core.Option.{Option, none, some}
use mathlib.Core.Bool.{Bool, true, false, not, ◌&&◌, ◌||◌}
use ca_project.Common.Tests.{leb, ◌==◌, if◌then◌else◌}
use ca_project.Common.Lists.{length, All}

abbrev pub codes : String → List ℕ
codes Str.[] = []
codes (Str.◌∷◌ c cs) = code c ∷ codes cs

abbrev pub is_digit : ℕ → Bool
is_digit c = leb 48 c && leb c 57

abbrev pub is_space : ℕ → Bool
is_space c = (leb 9 c && leb c 13) || (leb 28 c && leb c 32)

-- the longest prefix whose characters pass the test, and the rest
unfoldable pub span : (ℕ → Bool) → List ℕ → List ℕ × List ℕ
span test [] = ([], [])
span test (c ∷ cs) =
    let rest = span test cs in if test c then (c ∷ rest.0, rest.1) else ([], c ∷ cs)

-- `(?:\.\d+)?`
unfoldable pub fraction : List ℕ → List ℕ × List ℕ
fraction [] = ([], [])
fraction (c ∷ cs) =
    let digits = span is_digit cs in
    if c == 46 && not (length digits.0 == 0) then digits else ([], c ∷ cs)

unfoldable pub value : ℕ → List ℕ → ℕ
value acc [] = acc
value acc (c ∷ cs) = value (acc * 10 + (c - 48)) cs

abbrev pub same : List ℕ → List ℕ → Bool
same [] [] = true
same [] (d ∷ ds) = false
same (c ∷ cs) [] = false
same (c ∷ cs) (d ∷ ds) = c == d && same cs ds

-- the rest of a text that starts with another
abbrev pub strip : List ℕ → List ℕ → Option (List ℕ)
strip [] text = some text
strip (p ∷ ps) [] = none
strip (p ∷ ps) (c ∷ cs) = let rest = strip ps cs in if p == c then rest else none

module _ {ℓ} {A : Type ℓ} where
  -- a literal, then the rest of the pattern
  abbrev pub after : List ℕ → (List ℕ → Option A) → List ℕ → Option A
  after p next text = elim (strip p text) [ none ↦ none | some rest ↦ next rest ]

  -- `([...]+)`, then the rest of the pattern
  abbrev pub some_of : (ℕ → Bool) → (List ℕ → List ℕ → Option A) → List ℕ → Option A
  some_of test next text =
      let found = span test text in if length found.0 == 0 then none else next found.0 found.1

  -- `(\d+(?:\.\d+)?)`, then the rest of the pattern; the group as digits and decimal places
  abbrev pub number : (List ℕ → ℕ → List ℕ → Option A) → List ℕ → Option A
  number next text =
      let whole = span is_digit text in
      let part = fraction whole.1 in
      if length whole.0 == 0 then none else next (whole.0 ++ part.0) (length part.0) part.1

  -- `re.search`: the first place at which a pattern matches; it is given the character before.
  abbrev pub search : (Option ℕ → List ℕ → Option A) → Option ℕ → List ℕ → Option A
  search pattern before [] = pattern before []
  search pattern before (c ∷ cs) =
      let later = search pattern (some c) cs in
      elim (pattern before (c ∷ cs)) [ none ↦ later | some found ↦ some found ]

-- The text is empty or starts with a character that fails the test.
abbrev pub Stops : (ℕ → Bool) → List ℕ → Type 0
Stops test [] = Unit
Stops test (c ∷ cs) = test c ≡ false

pub span-stop : (test : ℕ → Bool) (xs : List ℕ) → Stops test xs → span test xs ≡ ([], xs)
unfolding span
span-stop test [] h = refl
span-stop test (c ∷ cs) h = rw h refl

pub span-append :
    (test : ℕ → Bool) (xs ys : List ℕ)
    → All (λ c. test c ≡ true) xs
    → Stops test ys
    → span test (xs ++ ys) ≡ (xs, ys)
unfolding span
span-append test [] ys h stop = span-stop test ys stop
span-append test (c ∷ cs) ys h stop = rw (h.0, span-append test cs ys h.1 stop) refl
