-- ===== src/Base/Int.antt =====
-- Signed numbers, as far as the program prints and reads them.
use Prim.Native.Nat.{ℕ, zero, suc, ◌+◌, ◌-◌, ◌/◌, ◌%◌, ◌^◌}
use mathlib.Core.List.{[], ◌∷◌}
use mathlib.Core.Option.{Option, none, some}
use db_operator.Base.Tests.{ltb, ◌==◌, if◌then◌else◌}
use db_operator.Base.Outcome.{Text}
use db_operator.Base.Strings.{read_digits}

-- `negsuc n` is -(n + 1)
pub data ℤ : Type 0 where
  pos : ℕ → ℤ
  negsuc : ℕ → ℤ

abbrev pub negate : ℕ → ℤ
negate zero = pos 0
negate (suc n) = negsuc n

-- the digits of a number up to a bound
abbrev pub bounded_digits : ℕ → Text → Option ℕ
bounded_digits top [] = none
bounded_digits top (c ∷ s) = elim (read_digits 0 (c ∷ s)) [
  | none ↦ none
  | some n ↦ if ltb top n then none else some n
]

abbrev pub max_int : ℕ
max_int = 2 ^ 63 - 1

abbrev to_pos : Option ℕ → Option ℤ
to_pos none = none
to_pos (some n) = some (pos n)

abbrev to_neg : Option ℕ → Option ℤ
to_neg none = none
to_neg (some n) = some (negate n)

-- `strconv.Atoi` at 64 bits
unfoldable pub atoi : Text → Option ℤ
unfolding read_digits
atoi [] = none
atoi (c ∷ s) =
    if c == b'-'
    then to_neg (bounded_digits (2 ^ 63) s)
    else if c == b'+'
    then to_pos (bounded_digits max_int s)
    else to_pos (bounded_digits max_int (c ∷ s))

-- the digits of a number before those in `after`; one unit of fuel gives one digit
unfoldable pub write_digits : ℕ → ℕ → Text → Text
write_digits zero n after = after
write_digits (suc fuel) n after =
    let digits = (48 + n % 10) ∷ after in
    elim (n / 10) [ zero ↦ digits | suc m ↦ write_digits fuel (suc m) digits ]

-- `strconv.Itoa`; a number has no more digits than one more than itself
unfoldable pub itoa : ℤ → Text
unfolding write_digits
itoa (pos n) = write_digits (suc n) n []
itoa (negsuc n) = b'-' ∷ write_digits (suc (suc n)) (suc n) []
