-- ===== src/Shared/Strings.antt =====
-- `Nvl`, `ReplaceNonAllowedChars` and `IsAllowedVariable` of shared/shared.go.
use db_operator.Base.{
  Text, text_eq, to_lower, is_empty, List, [], ◌∷◌, Bool, false, not, ◌||◌, ◌&&◌, if◌then◌else◌,
  leb, ℕ,
}

unfoldable pub nvl : Text → Text → Text
nvl val1 val2 = if is_empty val1 then val2 else val1

unfoldable pub is_allowed_variable : Text → List Text → Bool → Bool
is_allowed_variable name [] case_sensitive = false
is_allowed_variable name (option ∷ options) case_sensitive =
    (if case_sensitive then text_eq name option else text_eq (to_lower name) (to_lower option))
    || is_allowed_variable name options case_sensitive

abbrev is_allowed_byte : ℕ → Bool
is_allowed_byte c = (leb 48 c && leb c 57) || ((leb 65 c && leb c 90) || (leb 97 c && leb c 122))

-- after a byte that is replaced, or not
unfoldable pub replace_runs : Bool → Text → Text
replace_runs replaced [] = []
replace_runs replaced (c ∷ s) =
    let rest = replace_runs (not (is_allowed_byte c)) s in
    if is_allowed_byte c then c ∷ rest else (if replaced then rest else b'-' ∷ rest)

-- each longest run of other bytes than letters and digits becomes one dash
unfoldable pub replace_non_allowed_chars : Text → Text
unfolding replace_runs
replace_non_allowed_chars input = replace_runs false input
