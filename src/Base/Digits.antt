-- ===== src/Base/Digits.antt =====
-- The digits of `strconv.Itoa` read back by those of `strconv.Atoi`.
use Prim.Native.Nat.{ℕ, zero, suc, ◌+◌, ◌*◌, ◌/◌, ◌%◌, ◌<◌}
use mathlib.Core.Path.{◌∙◌, ◌≡◌, refl, ap}
use mathlib.Core.List.{[], ◌∷◌}
use mathlib.Core.Option.{some}
use native.Mathlib.Omega.{arith}
use db_operator.Base.Outcome.{Text}
use db_operator.Base.Strings.{read_digits}
use db_operator.Base.Int.{pos, write_digits, itoa}

digit_read :
    (a n : ℕ) (after : Text)
    → read_digits a ((48 + n % 10) ∷ after) ≡ read_digits (a * 10 + n % 10) after
unfolding read_digits
digit_read a n after = ground arith

digits_step :
    (fuel n q : ℕ) (after : Text)
    → n < suc fuel
    → n / 10 ≡ q
    → ((k : ℕ) (rest : Text)
        → k < fuel
        → read_digits 0 (write_digits fuel k rest) ≡ read_digits k rest)
    → read_digits 0 (elim q [
      | zero ↦ (48 + n % 10) ∷ after
      | suc m ↦ write_digits fuel (suc m) ((48 + n % 10) ∷ after)
    ])
      ≡ read_digits n after
digits_step fuel n zero after bound same shorter =
    digit_read 0 n after ∙ ap (λ k. read_digits k after) (omega arith)
digits_step fuel n (suc m) after bound same shorter =
    shorter (suc m) ((48 + n % 10) ∷ after) (omega arith)
    ∙ (digit_read (suc m) n after ∙ ap (λ k. read_digits k after) (omega arith))

write_digits-read :
    (fuel n : ℕ) (after : Text)
    → n < fuel
    → read_digits 0 (write_digits fuel n after) ≡ read_digits n after
unfolding write_digits
write_digits-read zero n after bound = absurd (omega arith)
write_digits-read (suc fuel) n after bound =
    digits_step fuel n (n / 10) after bound refl (write_digits-read fuel)

-- The text of each number that is not negative, read as digits, is the number again: the fuel of
-- `strconv.Itoa` is enough for every digit.
pub itoa-read : (n : ℕ) → read_digits 0 (itoa (pos n)) ≡ some n
unfolding itoa read_digits
itoa-read n = write_digits-read (suc n) n [] (omega arith)
