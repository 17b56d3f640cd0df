-- ===== src/Base/Exec.antt =====
-- Functions that read and write a state, and may end early. What was written before an error stays
-- written, so the state comes back beside the error too.
use mathlib.Core.Path.{◌≡◌, refl, ap}
use db_operator.Base.Outcome.{Error, Result, ok, err, panic, wrap}

abbrev pub Exec {ℓ κ} : Type ℓ → Type κ → Type (ℓ ⊔ κ)
Exec S A = S → Result A × S

module _ {ℓ κ} {S : Type ℓ} {A : Type κ} where
  abbrev pub pure : A → Exec S A
  pure a s = (ok a, s)

  abbrev pub raise : Error → Exec S A
  raise e s = (err e, s)

  abbrev pub lift : Result A → Exec S A
  lift r s = (r, s)

  -- `return nil, fmt.Errorf("… %s", err)`
  abbrev pub wrapping : Exec S A → Exec S A
  wrapping m s = (wrap (m s).0, (m s).1)

module _ {ℓ κ μ} {S : Type ℓ} {A : Type κ} {B : Type μ} where
  abbrev pub continue : (A → Exec S B) → Result A → Exec S B
  continue f (ok a) s = f a s
  continue f (err e) s = (err e, s)
  continue f panic s = (panic, s)

  infixl 5 ◌>>=◌ ◌>>◌
  abbrev pub ◌>>=◌ : Exec S A → (A → Exec S B) → Exec S B
  ◌>>=◌ m f s = continue f (m s).0 (m s).1

  abbrev pub ◌>>◌ : Exec S A → Exec S B → Exec S B
  m >> k = m >>= λ _. k

  -- a sequence that succeeds has succeeded in both parts
  continue-ok :
      (f : A → Exec S B) (r : Result A) (s s' : S) (b : B)
      → continue f r s ≡ (ok b, s')
      → (a : A) × (r ≡ ok a) × (f a s ≡ (ok b, s'))
  continue-ok f (ok a) s s' b h = (a, refl, h)
  continue-ok f (err e) s s' b h = cc
  continue-ok f panic s s' b h = cc

  pub bind-ok :
      (m : Exec S A) (f : A → Exec S B) (s s' : S) (b : B)
      → (m >>= f) s ≡ (ok b, s')
      → (a : A) × (s₁ : S) × (m s ≡ (ok a, s₁)) × (f a s₁ ≡ (ok b, s'))
  bind-ok m f s s' b h =
      let (a, fine, next) = continue-ok f (m s).0 (m s).1 s' b h in
      (a, (m s).1, ap (λ r. (r, (m s).1)) fine, next)

  -- what holds before a sequence and is kept by its parts holds at its end, wherever it ends
  pub continue-keeps {ν} :
      (P : S → Type ν) (f : A → Exec S B) (r : Result A) (s : S)
      → P s
      → ((a : A) → r ≡ ok a → P (f a s).1)
      → P (continue f r s).1
  continue-keeps P f (ok a) s kept next = next a refl
  continue-keeps P f (err e) s kept next = kept
  continue-keeps P f panic s kept next = kept
