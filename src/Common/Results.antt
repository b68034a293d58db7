-- ===== src/Common/Results.antt =====
-- The exceptions that the program raises or lets through, as values.
use mathlib.Core.Path.{◌≡◌, refl}
use mathlib.Core.Bool.{Bool}
use ca_project.Common.Tests.{if◌then◌else◌}

pub data Exception : Type 0 where
  zero_division_error value_error assertion_error type_error os_error runtime_error : Exception
  attribute_error key_error index_error : Exception

-- what a Python call comes to
pub data Result {κ} (V : Type κ) : Type κ where
  raise : (e : Exception) → Result V
  ok : (v : V) → Result V

-- `if not test: raise e`, and `assert test`
abbrev pub check : Bool → Exception → Result (Unit {0})
check test e = if test then ok tt else raise e

module _ {κ} {W : Type κ} where
  infixl 5 ◌>>=◌ ◌>>◌
  abbrev pub ◌>>=◌ {ℓ} : {V : Type ℓ} → Result V → (V → Result W) → Result W
  (raise e) >>= next = raise e
  (ok v) >>= next = next v

  abbrev pub ◌>>◌ : Result (Unit {0}) → Result W → Result W
  (raise e) >> next = raise e
  (ok _) >> next = next

-- What returns, in two parts that return.
pub bind-ok {ℓ κ} :
    {V : Type ℓ} {W : Type κ} (r : Result V) (next : V → Result W) {w : W}
    → (r >>= next) ≡ ok w
    → (v : V) × (r ≡ ok v) × (next v ≡ ok w)
bind-ok (ok v) next h = (v, refl, h)
bind-ok (raise e) next h = absurd (cc)

pub bind_assoc {ℓ κ μ} :
    {U : Type ℓ} {V : Type κ} {W : Type μ} (r : Result U) (f : U → Result V) (g : V → Result W)
    → (r >>= λ u. f u >>= g) ≡ (r >>= f >>= g)
bind_assoc (ok u) f g = refl
bind_assoc (raise e) f g = refl
