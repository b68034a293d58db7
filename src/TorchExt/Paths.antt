-- ===== src/TorchExt/Paths.antt =====
-- The paths of src/torch_ext/checkpoint.py: `pathlib`'s `stem`, `suffix` and `with_name`, and the
-- names that are built from them. A path is the text before the name of a file, with its slash, and
-- that name.
use Prim.Native.String.{String, [], ◌∷◌, ◌++◌, len}
use Prim.Native.Char.{Char, code}
use text.Mathlib.Text.{◌==◌ as str_eq}
use text.Mathlib.TextLemmas.{append_cancel_left, append-nil, nil-append, cons-append}
use text.Mathlib.TextEquality.{Char-path}
use text.Mathlib.TextPositions.{len-append}
use ca_project.Common.{
  ℕ, suc, Bool, true, false, ◌||◌, Option, none, some, if◌then◌else◌, ◌≡◌, ◌≢◌, arith, ◌+◌, ◌<◌, ap,
  sym, ◌∙◌, Bool-cases, inl, inr,
}
use ca_project.Common.{◌==◌ as nat_eq}

pub record Location : Type 0 where
  pub folder : String
  pub name : String

-- `str(path)`
abbrev pub to_text : Location → String
to_text p = p.folder ++ p.name

abbrev is_slash : Char → Bool
is_slash c = nat_eq (code c) 47

-- `pathlib` drops the parts of a path that are empty or a dot.
abbrev kept_part : String → String
kept_part part = if str_eq part "" || str_eq part "." then "" else part ++ "/"

-- the parts of a text that are kept, each with its slash; `part` is read already
unfoldable pub kept_parts : String → String → String
kept_parts part [] = kept_part part
kept_parts part (c ∷ cs) = elim (is_slash c) [
  | true ↦ kept_part part ++ kept_parts "" cs
  | false ↦ kept_parts (part ++ (c ∷ "")) cs
]

unfoldable pub leading_slashes : String → ℕ
leading_slashes [] = 0
leading_slashes (c ∷ cs) = let n = leading_slashes cs in if is_slash c then suc n else 0

-- Two slashes at the start are kept; any other number of them is one.
abbrev root : String → String
root text =
    if nat_eq (leading_slashes text) 0
    then ""
    else (if nat_eq (leading_slashes text) 2 then "//" else "/")

-- what stands before the name in `str(Path(text) / name)`
unfoldable pub path_folder : String → String
path_folder text = root text ++ kept_parts "" text

-- what stands before and after the last dot
unfoldable pub split_last : String → Option (String × String)
split_last [] = none
split_last (c ∷ cs) = elim (split_last cs) [
  | some (before, after) ↦ some (c ∷ before, after)
  | none ↦ if nat_eq (code c) 46 then some ([], cs) else none
]

-- `stem` and `suffix`: a dot at either end of the name starts no suffix
abbrev pub parts : String → String × String
parts name = elim (split_last name) [
  | none ↦ (name, "")
  | some (before, after) ↦
      if str_eq before ""
      then (name, "")
      else (if str_eq after "" then (name, "") else (before, "." ++ after))
]

-- `path.with_name(f"{path.stem}{tag}{path.suffix}")`
unfoldable pub tagged : String → Location → Location
tagged tag p = record p { name = (parts p.name).0 ++ (tag ++ (parts p.name).1) }

abbrev pub derive_alt_checkpoint_path : Location → Location
derive_alt_checkpoint_path = tagged "_alt"

-- `target.with_name(f".{target.name}.{hex}.tmp")`
unfoldable pub tmp_target : String → Location → Location
tmp_target hex p = record p { name = "." ++ (p.name ++ ("." ++ (hex ++ ".tmp"))) }

abbrev dot : Char
dot = "."

dot-append : (c : Char) (cs : String) → code c ≡ 46 → "." ++ cs ≡ c ∷ cs
dot-append c cs h =
    let same : c ≡ dot = Char-path c dot h in
    cons-append dot [] cs ∙ ap (λ s. dot ∷ s) (nil-append cs) ∙ ap (λ d. d ∷ cs) (sym same)

abbrev IsSplit : String → Option (String × String) → Type 0
IsSplit name none = Unit
IsSplit name (some (before, after)) = before ++ ("." ++ after) ≡ name

split_last-IsSplit : (name : String) → IsSplit name (split_last name)
unfolding split_last
split_last-IsSplit [] = tt
split_last-IsSplit (c ∷ cs) = go (split_last cs) (split_last-IsSplit cs)
  where
    go :
        (r : Option (String × String))
        → IsSplit cs r
        → IsSplit (c ∷ cs) (elim r [
          | some (before, after) ↦ some (c ∷ before, after)
          | none ↦ if nat_eq (code c) 46 then some ([], cs) else none
        ])
    go (some (before, after)) h = cons-append c before ("." ++ after) ∙ ap (λ s. c ∷ s) h
    go none h = elim (Bool-cases (nat_eq (code c) 46)) [
      | inl found ↦ rw found (nil-append ("." ++ cs) ∙ dot-append c cs (ground arith))
      | inr other ↦ rw other tt
    ]

-- Stem and suffix make up the name.
parts-join : (name : String) → (parts name).0 ++ (parts name).1 ≡ name
parts-join name = go (split_last name) (split_last-IsSplit name)
  where
    parts_of : Option (String × String) → String × String
    parts_of r = elim r [
      | none ↦ (name, "")
      | some (before, after) ↦
          if str_eq before ""
          then (name, "")
          else (if str_eq after "" then (name, "") else (before, "." ++ after))
    ]

    go : (r : Option (String × String)) → IsSplit name r → (parts_of r).0 ++ (parts_of r).1 ≡ name
    go none h = append-nil name
    go (some (before, after)) h = elim (Bool-cases (str_eq before "")) [
      | inl first ↦ rw first (append-nil name)
      | inr later ↦ elim (Bool-cases (str_eq after "")) [
        | inl last ↦ rw (later, last) (append-nil name)
        | inr inside ↦ rw (later, inside) h
      ]
    ]

-- The tagged name is the longer by the tag.
pub len-tagged : (tag : String) (p : Location) → len (tagged tag p).name ≡ len tag + len p.name
unfolding tagged
len-tagged tag p = omega (
  arith,
  len-append (parts p.name).0 (tag ++ (parts p.name).1),
  len-append tag (parts p.name).1,
  len-append (parts p.name).0 (parts p.name).1,
  ap len (parts-join p.name),
)

pub len-tmp_target : (hex : String) (p : Location) → len p.name + 4 < len (tmp_target hex p).name
unfolding tmp_target
len-tmp_target hex p = omega (
  arith,
  len-append "." (p.name ++ ("." ++ (hex ++ ".tmp"))),
  len-append p.name ("." ++ (hex ++ ".tmp")),
  len-append "." (hex ++ ".tmp"),
  len-append hex ".tmp",
)

-- Names of different lengths in one folder make different paths.
pub apart_by_len :
    (p q : Location) → p.folder ≡ q.folder → len p.name ≢ len q.name → to_text p ≢ to_text q
apart_by_len p q same differ e =
    differ
      (ap len (append_cancel_left p.folder p.name q.name (e ∙ ap (λ f. f ++ q.name) (sym same))))
