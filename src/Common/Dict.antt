-- ===== src/Common/Dict.antt =====
-- Python's `dict` with string keys, in insertion order: `d[k] = v` keeps the place of a key that
-- is there and appends one that is not.
use Prim.Native.String.{String}
use mathlib.Core.Path.{◌≡◌, refl, ap}
use mathlib.Core.List.{List, [], ◌∷◌, map}
use mathlib.Core.Option.{Option, none, some}
use text.Mathlib.Text.{◌==◌}
use text.Mathlib.TextEquality.{eq_iff}
use native.Mathlib.Omega.{arith}
use text.Mathlib.TextPositions.{eq_refl}
use Prim.Native.Nat.{suc}
use ca_project.Common.Tests.{if◌then◌else◌}
use ca_project.Common.Lists.{length, All}

abbrev pub Dict {ℓ} : Type ℓ → Type ℓ
Dict V = List (String × V)

module _ {ℓ} {V : Type ℓ} where
  -- `d.get(k)`
  unfoldable pub get : String → Dict V → Option V
  get k [] = none
  get k ((j, v) ∷ d) = if j == k then some v else get k d

  -- `d[k] = v`
  unfoldable pub put : String → V → Dict V → Dict V
  put k v [] = (k, v) ∷ []
  put k v ((j, w) ∷ d) = if j == k then (k, v) ∷ d else (j, w) ∷ put k v d

  -- `d.pop(k, None)`; a key stands once in a dict
  unfoldable pub pop : String → Dict V → Dict V
  pop k [] = []
  pop k ((j, w) ∷ d) = let rest = pop k d in if j == k then rest else (j, w) ∷ rest

  -- `d.values()`
  abbrev pub values : Dict V → List V
  values = map (λ e. e.1)

  pub get-put :
      (k j : String) (v : V) (d : Dict V) → get j (put k v d) ≡ (if k == j then some v else get j d)
  unfolding get put
  get-put k j v [] = refl
  get-put k j v ((i, w) ∷ d) = ground (arith, get-put k j v d, eq_iff k j, eq_iff i k, eq_iff i j)

  pub get-pop : (k j : String) (d : Dict V) → get j (pop k d) ≡ (if k == j then none else get j d)
  unfolding get pop
  get-pop k j [] = ground arith
  get-pop k j ((i, w) ∷ d) = ground (arith, get-pop k j d, eq_iff k j, eq_iff i k, eq_iff i j)

  -- No key stands twice.
  abbrev pub IsDistinct : Dict V → Type ℓ
  IsDistinct [] = Unit
  IsDistinct ((k, v) ∷ d) = (get k d ≡ none) × IsDistinct d

  pub put-IsDistinct : (k : String) (v : V) (d : Dict V) → IsDistinct d → IsDistinct (put k v d)
  unfolding get put
  put-IsDistinct k v [] h = (refl, tt)
  put-IsDistinct k v ((j, w) ∷ d) h =
      ground (arith, eq_iff j k, eq_iff k j, get-put k j v d, put-IsDistinct k v d)

  pub pop-IsDistinct : (k : String) (d : Dict V) → IsDistinct d → IsDistinct (pop k d)
  unfolding pop
  pop-IsDistinct k [] h = tt
  pop-IsDistinct k ((j, w) ∷ d) h =
      ground (arith, eq_iff j k, eq_iff k j, get-pop k j d, pop-IsDistinct k d)

  -- Every entry satisfies `P`.
  abbrev pub AllEntries {κ} : (String → V → Type κ) → Dict V → Type κ
  AllEntries P [] = Unit
  AllEntries P ((k, v) ∷ d) = P k v × AllEntries P d

pub length-values {ℓ} : {V : Type ℓ} (d : Dict V) → length (values d) ≡ length d
length-values [] = refl
length-values (e ∷ d) = ap suc (length-values d)

-- What holds of `f` at each key holds along the dict.
pub map-keys {ℓ κ} :
    {V : Type ℓ} {B : Type κ} (f : String → B) (g : V → B) (d : Dict V)
    → IsDistinct d
    → ((k : String) (v : V) → get k d ≡ some v → f k ≡ g v)
    → map (λ e. f e.0) d ≡ map g (values d)
unfolding get
map-keys f g [] distinct h = refl
map-keys f g ((j, v) ∷ d) distinct h = rw (
  h j v (rw eq_refl),
  map-keys f g d distinct.1 (λ k w found. h k w (ground (arith, eq_iff j k, found, distinct.0))),
)

-- What holds at each key holds of all entries.
pub All-keys {ℓ κ} :
    {V : Type ℓ} (P : String → Type κ) (d : Dict V)
    → IsDistinct d
    → ((k : String) (v : V) → get k d ≡ some v → P k)
    → All (λ e. P e.0) d
unfolding get
All-keys P [] distinct h = tt
All-keys P ((j, v) ∷ d) distinct h = (
  h j v (rw eq_refl),
  All-keys P d distinct.1 (λ k w found. h k w (ground (arith, eq_iff j k, found, distinct.0))),
)
