-- ===== src/Postgres/Acl.antt =====
-- What the getters make of the rows that they read: `datacl` and `defaclacl` entries and SHOW GRANTS,
-- in database_privs.go and default_table_privs.go of dbservers/postgres.
pub mod Suffix
use db_operator.Base.{
  Text, codes, text_eq, split, contains_byte, has_prefix, has_suffix, trim_prefix, trim_suffix,
  get_elem?, is_empty, Result, ok, err, panic, or_panic, extra_rows, cannot_load, unsupported, List,
  [], ◌∷◌, ◌++◌, Option, none, some, Bool, true, false, ℕ, ◌==◌, drop, length, if◌then◌else◌, ◌>>=◌,
  ◌>>◌,
}
use db_operator.Interfaces.Sql.{Sql}
use db_operator.Postgres.Select.{loaded}

abbrev pub when : Bool → Text → List Text
when true t = t ∷ []
when false t = []

-- the optional byte of a regular expression, `b?`
abbrev optional : ℕ → Text → Bool × Text
optional b [] = (false, [])
optional b (c ∷ s) = if c == b then (true, s) else (false, c ∷ s)

abbrev pub acl_tail : Text → Bool
acl_tail (slash ∷ c ∷ s) = if slash == b'/' then (if c == b',' then false else true) else false
acl_tail _ = false

-- behind the user name: `\\?"?=(C?T?c?)/[^,]+,?`, with the group as the privileges that it names
unfoldable pub match_acl_entry : Text → Option (List Text)
match_acl_entry s =
    let (_, s₁) = optional b'\\' s in
    let (_, s₂) = optional b'"' s₁ in
    let (equals, s₃) = optional b'=' s₂ in
    let (create, s₄) = optional b'C' s₃ in
    let (temporary, s₅) = optional b'T' s₄ in
    let (connect, s₆) = optional b'c' s₅ in
    if equals
    then (if acl_tail s₆
        then some (
            when create (codes "CREATE")
            ++ (when temporary (codes "TEMPORARY") ++ when connect (codes "CONNECT")))
        else none)
    else none

-- `re.FindStringSubmatch(datacl)` for a user name with no special byte: the leftmost match
unfoldable pub find_acl : Text → Text → Option (List Text)
unfolding match_acl_entry
find_acl user [] = none
find_acl user (c ∷ s) =
    let later = find_acl user s in
    let here : Option (List Text) =
      if has_prefix (c ∷ s) user then match_acl_entry (drop (length user) (c ∷ s)) else none in
    elim here [ some privs ↦ some privs | none ↦ later ]

abbrev pub or_none : Option (List Text) → List Text
or_none none = []
or_none (some privs) = privs

-- `stripOuterChars`
unfoldable pub strip_outer_chars : Text → Text → Text
strip_outer_chars object_name chars =
    if has_prefix object_name chars
    then (if has_suffix object_name chars
        then trim_suffix (trim_prefix object_name chars) chars
        else object_name)
    else object_name

-- the part before the first separator
abbrev pub first_part : Text → ℕ → Text
first_part s sep = elim (split s sep) [ [] ↦ [] | part ∷ _ ↦ part ]

-- the privileges that the letters of an access list stand for
unfoldable pub named_by_letters : Text → List Text
named_by_letters privs =
    when (contains_byte b'a' privs) (codes "INSERT")
    ++ (when (contains_byte b'r' privs) (codes "SELECT")
        ++ (when (contains_byte b'w' privs) (codes "UPDATE")
            ++ when (contains_byte b'd' privs) (codes "DELETE")))

-- one round of the loop over `defaclacl`: what it appends
unfoldable pub default_acl : Text → Text → Text → Result (List Text)
unfolding strip_outer_chars named_by_letters
default_acl object_type user defaclacl = do
  let parts = split defaclacl b'='
  first ← or_panic (get_elem? parts 0)
  second ← or_panic (get_elem? parts 1)
  let grantee = strip_outer_chars first (codes "\"")
  let privs = if contains_byte b'/' second then first_part second b'/' else second
  if text_eq object_type (codes "r")
      then ok (if text_eq user grantee then named_by_letters privs else [])
      else err unsupported

unfoldable pub default_acls : Text → Text → List Text → Result (List Text)
unfolding default_acl
default_acls object_type user [] = ok []
default_acls object_type user (acl ∷ acls) =
    let rest = default_acls object_type user acls in
    elim (default_acl object_type user acl) [
      | ok privs ↦ elim rest [ ok more ↦ ok (privs ++ more) | err e ↦ err e | panic ↦ panic ]
      | err e ↦ err e
      | panic ↦ panic
    ]

module _ ⦃db : Sql⦄ where
  open db use {scan_string, scan_bool, scan_array}

  abbrev pub scan_acls : List db.Value → Option (List Text)
  scan_acls (v ∷ []) = scan_array v
  scan_acls _ = none

  -- the one row of a role's default privileges
  unfoldable pub only_row : Text → Text → List (List db.Value) → Result (List Text)
  unfolding default_acls
  only_row object_type user [] = ok []
  only_row object_type user (row ∷ rows) = elim (scan_acls row) [
    | none ↦ err cannot_load
    | some acls ↦ elim (default_acls object_type user acls) [
      | ok privs ↦ if is_empty rows then ok privs else err extra_rows
      | err e ↦ err e
      | panic ↦ panic
    ]
  ]

  -- database name, grantee, privilege and whether it can be granted on
  abbrev pub shown_grant : List db.Value → Result Text
  shown_grant (a ∷ b ∷ c ∷ d ∷ []) = do
    loaded (scan_string a)
    loaded (scan_string b)
    privilege_type ← loaded (scan_string c)
    loaded (scan_bool d)
    ok privilege_type
  shown_grant _ = err cannot_load
