-- ===== src/Interfaces/Calls.antt =====
-- Calls that the controllers make of connections and of the API server: they read and write a world,
-- and answer with a value or an error.
use db_operator.Base.{Error, Result, ok, err, panic, external, codes, Option, none, some}

pub data Reply {ℓ} (A : Type ℓ) : Type ℓ where
  got : A → Reply A
  refused : Error → Reply A

abbrev pub Call {ℓ} : Type 0 → Type ℓ → Type ℓ
Call E A = E → Reply A × E

-- of a function that does not panic
abbrev pub reply_of {ℓ} : {A : Type ℓ} → Result A → Reply A
reply_of (ok a) = got a
reply_of (err e) = refused e
reply_of panic = refused (external (codes "panic"))

-- `_, err :=`
abbrev pub error_of {ℓ} : {A : Type ℓ} → Reply A → Option Error
error_of (got a) = none
error_of (refused e) = some e
