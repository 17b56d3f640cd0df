-- ===== src/Base/Outcome.antt =====
-- The errors of the program, and the two ways in which a Go function ends early: an error value
-- and a panic. An error keeps the arguments of its message and drops the wording.
use mathlib.Core.Path.{◌≡◌, refl}
use mathlib.Core.Logic.{◌⊎◌, inl, inr}
use mathlib.Core.Bool.{Bool, true, false}
use mathlib.Core.List.{List}
use mathlib.Core.Option.{Option, none, some}
use Prim.Native.Nat.{ℕ}

abbrev pub Text : Type 0
Text = List ℕ

pub data Error : Type 0 where
  -- `errors.StatusError` with its reason, and `shared.AlreadyHandledError`
  status : Text → Error
  handled : Error → Error
  -- an error of a driver or of the network
  external : Text → Error
  -- an error whose text a `fmt.Errorf` quotes
  wrapped : Error → Error
  -- `fmt.Errorf`
  invalid_role_attrs : List Text → Error
  invalid_privs : Text → List Text → Error
  invalid_priv_type : Text → Error
  invalid_scope : Text → Error
  invalid_object_type : Text → Error
  scope_parts : Text → ℕ → Error
  default_privs_with_type : Error
  default_privs_on : Text → Error
  both_privs : Error
  no_privs : Error
  slash_in_privs : Error
  unexpected_product : Text → Error
  bad_version : Text → Error
  no_credentials : Text → Error
  cannot_load : Error
  got_null : Error
  no_rows : Error
  dot_in_schema : Error
  extra_rows : Error
  exclusive_options : Error
  unsupported : Error
  quoted_name : Error
  unquoted_table : Error
  bad_grant_line : Error
  ambiguous : ℕ → Error

pub data Result {ℓ} (A : Type ℓ) : Type ℓ where
  ok : A → Result A
  err : Error → Result A
  panic : Result A

infixl 5 ◌>>=◌ ◌>>◌
abbrev pub ◌>>=◌ {ℓ κ} : {A : Type ℓ} {B : Type κ} → Result A → (A → Result B) → Result B
ok a >>= f = f a
err e >>= f = err e
panic >>= f = panic

abbrev pub ◌>>◌ {ℓ κ} : {A : Type ℓ} {B : Type κ} → Result A → Result B → Result B
m >> k = m >>= λ _. k

-- an index out of range, or a dereference of nil
abbrev pub or_panic {ℓ} : {A : Type ℓ} → Option A → Result A
or_panic none = panic
or_panic (some a) = ok a

abbrev pub guard : Bool → Error → Result (Unit {0})
guard true e = ok tt
guard false e = err e

abbrev pub wrap {ℓ} : {A : Type ℓ} → Result A → Result A
wrap (ok a) = ok a
wrap (err e) = err (wrapped e)
wrap panic = panic

pub Result-cases {ℓ} :
    {A : Type ℓ} (r : Result A)
    → ((a : A) × (r ≡ ok a)) ⊎ (((x : Error) × (r ≡ err x)) ⊎ (r ≡ panic))
Result-cases (ok a) = inl (a, refl)
Result-cases (err x) = inr (inl (x, refl))
Result-cases panic = inr (inr refl)
