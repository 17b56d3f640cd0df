-- ===== src/MySql/ShowGrants.antt =====
-- The regular expression `GRANTS_RE` on a line of SHOW GRANTS, and the lines that `getPrivileges`
-- reads, in dbservers/mysql/privileges.go.
pub mod Unseen
use db_operator.Base.{
  Text, codes, text_eq, has_prefix, contains_text, contains_byte, split, trim_space, drop, length,
  Result, ok, err, panic, bad_grant_line, List, [], ◌∷◌, ◌++◌, map, Option, none, some, Bool, true,
  false, ◌&&◌, ◌||◌, ℕ, ◌==◌, if◌then◌else◌, ◌>>=◌,
}
use db_operator.MySql.Columns.{normalize_col_grants}

abbrev pub is_quote : ℕ → Bool
is_quote c = c == b'\'' || (c == b'`' || c == b'"')

abbrev pub has_quote : Text → Bool
has_quote [] = false
has_quote (c ∷ s) = is_quote c || has_quote s

-- `.*q@q.*q` at the start of a text
abbrev pub user_and_host : Text → Bool
user_and_host (a ∷ b ∷ c ∷ s) =
    (is_quote a && (b == b'@' && (is_quote c && has_quote s))) || user_and_host (b ∷ c ∷ s)
user_and_host _ = false

-- behind " TO ": the third group, the quote before the user name. The rest of the expression is
-- optional.
unfoldable pub match_user : Text → Option Text
match_user [] = none
match_user (c ∷ s) = if is_quote c && user_and_host s then some (c ∷ []) else none

module _ {A : Type 0} (rest : Text → Option A) (sep : Text) where
  -- `(.+)sep` with what follows: the group is as long as the rest lets it be
  unfoldable pub longest_before : Text → Option (Text × A)
  longest_before [] = none
  longest_before (c ∷ s) =
      let later = longest_before s in
      let here : Option (Text × A) =
        if has_prefix s sep
        then (elim (rest (drop (length sep) s)) [ some a ↦ some (c ∷ [], a) | none ↦ none ])
        else none in
      elim later [ some (x, a) ↦ some (c ∷ x, a) | none ↦ here ]

-- the leftmost match: privileges, object and the quote before the user name
unfoldable pub find_grant : Text → Option (Text × (Text × Text))
unfolding match_user longest_before
find_grant [] = none
find_grant (c ∷ s) =
    let later = find_grant s in
    let here : Option (Text × (Text × Text)) =
      if has_prefix (c ∷ s) (codes "GRANT ")
      then longest_before (longest_before match_user (codes " TO ")) (codes " ON ") (drop 6 (c ∷ s))
      else none in
    elim here [ some m ↦ some m | none ↦ later ]

abbrev pub priv_word : Text → Text
priv_word priv =
    let trimmed = trim_space priv in
    if text_eq trimmed (codes "ALL PRIVILEGES") then codes "ALL" else trimmed

-- one line: its object and its privileges
unfoldable pub read_grant : Text → Result (Text × List Text)
unfolding find_grant
read_grant line = elim (find_grant line) [
  | none ↦ err bad_grant_line
  | some (privs, (on, quote)) ↦ do
    privileges ← normalize_col_grants (map priv_word (split privs b','))
    if contains_text quote (codes "WITH GRANT OPTION")
        then ok (on, privileges ++ codes "GRANT" ∷ [])
        else ok (on, privileges)
]
