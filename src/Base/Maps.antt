-- ===== src/Base/Maps.antt =====
-- Go maps with string keys, as lists of their entries.
use mathlib.Core.Path.{◌≡◌, refl}
use mathlib.Core.Logic.{inl, inr}
use native.Mathlib.Omega.{arith}
use db_operator.Base.Tests.{if◌then◌else◌, All, Bool-cases}
use db_operator.Base.Outcome.{Text}
use db_operator.Base.Strings.{text_eq, text_eq_iff}
use mathlib.Core.List.{List, [], ◌∷◌}
use mathlib.Core.Option.{Option, none, some}

module _ {ℓ} {A : Type ℓ} where
  unfoldable pub lookup : Text → List (Text × A) → Option A
  lookup k [] = none
  lookup k ((key, a) ∷ m) = let later = lookup k m in if text_eq key k then some a else later

  -- `m[k] = a`
  unfoldable pub store : Text → A → List (Text × A) → List (Text × A)
  store k a [] = (k, a) ∷ []
  store k a ((key, b) ∷ m) =
      let rest = store k a m in if text_eq key k then (key, a) ∷ m else (key, b) ∷ rest

  pub lookup-store :
      (k k' : Text) (a : A) (m : List (Text × A))
      → lookup k' (store k a m) ≡ (if text_eq k k' then some a else lookup k' m)
  unfolding lookup store
  lookup-store k k' a [] = refl
  lookup-store k k' a ((key, b) ∷ m) =
      ground (arith, lookup-store k k' a m, text_eq_iff key k, text_eq_iff key k', text_eq_iff k k')

  -- no key has two entries
  abbrev pub Distinct : List (Text × A) → Type ℓ
  Distinct [] = Unit
  Distinct ((k, a) ∷ m) = (lookup k m ≡ none) × Distinct m

  pub store-Distinct :
      (k : Text) (a : A) (m : List (Text × A)) → Distinct m → Distinct (store k a m)
  unfolding lookup store
  store-Distinct k a [] distinct = (refl, tt)
  store-Distinct k a ((key, b) ∷ m) (fresh, rest) = elim (Bool-cases (text_eq key k)) [
    | inl same ↦ rw same (fresh, rest)
    | inr other ↦ rw other (
      ground (arith, lookup-store k key a m, text_eq_iff k key, text_eq_iff key k, fresh),
      store-Distinct k a m rest,
    )
  ]

  abbrev pub Listed : List (Text × A) → Text × A → Type ℓ
  Listed m (k, a) = lookup k m ≡ some a

  Listed-cons :
      (k : Text) (a : A) (m es : List (Text × A))
      → lookup k m ≡ none
      → All (Listed m) es
      → All (Listed ((k, a) ∷ m)) es
  unfolding lookup
  Listed-cons k a m [] fresh listed = tt
  Listed-cons k a m ((k', b) ∷ es) fresh (here, rest) =
      (ground (arith, text_eq_iff k k', fresh, here), Listed-cons k a m es fresh rest)

  pub Distinct-Listed : (m : List (Text × A)) → Distinct m → All (Listed m) m
  unfolding lookup
  Distinct-Listed [] distinct = tt
  Distinct-Listed ((k, a) ∷ m) (fresh, rest) =
      (ground (arith, text_eq_iff k k), Listed-cons k a m m fresh (Distinct-Listed m rest))
