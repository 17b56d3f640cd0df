-- ===== src/Postgres/Privileges.antt =====
-- The flags, the privilege lists and the scopes of dbservers/postgres/privileges.go.
pub mod Normalize
use db_operator.Base.{
  Text, codes, Result, ok, err, invalid_role_attrs, scope_parts, text_eq, split, is_empty, length,
  to_upper, trim_space, contains_byte, List, [], ◌∷◌, ◌++◌, map, Bool, not, ℕ, leb, if◌then◌else◌,
  ◌>>=◌,
}
use db_operator.Interfaces.Funk.{Funk}
use db_operator.Postgres.Version.{PostgresVersion, get_valid_privs, all_word}

abbrev pub temp_word : Text
temp_word = codes "TEMP"

abbrev pub temporary_word : Text
temporary_word = codes "TEMPORARY"

unfoldable pub string_not_empty : Text → Bool
string_not_empty input = not (is_empty input)

unfoldable pub remove : List Text → Text → List Text
remove [] item = []
remove (value ∷ arr) item =
    let rest = remove arr item in if text_eq value item then rest else value ∷ rest

abbrev pub flags : List Text
flags =
    codes "SUPERUSER"
    ∷ codes "CREATEROLE"
    ∷ codes "CREATEDB"
    ∷ codes "INHERIT"
    ∷ codes "LOGIN"
    ∷ codes "REPLICATION"
    ∷ []

-- the one entry of `FLAGS_BY_VERSION`
abbrev pub flags_by_version : List (Text × ℕ)
flags_by_version = (codes "BYPASSRLS", 90500) ∷ []

abbrev pub flags_from : ℕ → List (Text × ℕ) → List Text
flags_from version [] = []
flags_from version ((flag, from) ∷ rest) =
    if leb from version then flag ∷ flags_from version rest else flags_from version rest

unfoldable pub get_flags_for_version : ℕ → List Text
get_flags_for_version version =
    let known = flags ++ flags_from version flags_by_version in
    known ++ map (λ flag. codes "NO" ++ flag) known

-- `PRIV_TO_AUTHID_COLUMN`, where a key that is missing gives the empty string
unfoldable pub authid_column : Text → Text
authid_column flag =
    if text_eq flag (codes "SUPERUSER")
    then codes "rolsuper"
    else if text_eq flag (codes "CREATEROLE")
    then codes "rolcreaterole"
    else if text_eq flag (codes "CREATEDB")
    then codes "rolcreatedb"
    else if text_eq flag (codes "INHERIT")
    then codes "rolinherit"
    else if text_eq flag (codes "LOGIN")
    then codes "rolcanlogin"
    else if text_eq flag (codes "REPLICATION")
    then codes "rolreplication"
    else if text_eq flag (codes "BYPASSRLS")
    then codes "rolbypassrls"
    else []

-- `GetDbNameFromScopeName`; `strings.Split` always gives a first part
unfoldable pub get_db_name_from_scope_name : Text → Text
get_db_name_from_scope_name scope_name =
    if contains_byte b'.' scope_name
    then elim (split scope_name b'.') [ [] ↦ [] | part ∷ _ ↦ part ]
    else scope_name

abbrev pub second_of_two : Text → List Text → Result Text
second_of_two scope_name (db ∷ name ∷ []) = ok name
second_of_two scope_name parts = err (scope_parts scope_name (length parts))

unfoldable pub get_scope_after_db : Text → Result Text
get_scope_after_db scope_name = second_of_two scope_name (split scope_name b'.')

module _ ⦃funk : Funk⦄ where
  open funk use {contains, subset, subtract, uniq, filter_string, map_string}

  unfoldable pub parse_role_attrs : Text → ℕ → Result (List Text)
  parse_role_attrs role_attr_flags version =
      let given =
        map_string to_upper (filter_string string_not_empty (split role_attr_flags b',')) in
      let valid = get_flags_for_version version in
      if subset given valid then ok given else err (invalid_role_attrs (subtract given valid))

  -- the first half of `NormalizePrivileges`
  unfoldable pub expand_all : List Text → Text → PostgresVersion → Result (List Text)
  expand_all privs priv_type server_version =
      if contains privs all_word
      then (do
        valid ← get_valid_privs server_version priv_type
        ok (remove (privs ++ valid) all_word))
      else ok privs

  -- the second half
  unfoldable pub expand_temp : List Text → List Text
  expand_temp privs =
      if contains privs temp_word then remove (privs ++ temporary_word ∷ []) temp_word else privs

  unfoldable pub normalize_privileges : List Text → Text → PostgresVersion → Result (List Text)
  normalize_privileges privs priv_type server_version = do
    expanded ← expand_all privs priv_type server_version
    ok (uniq (expand_temp expanded))

  unfoldable pub to_priv_set : Text → List Text
  to_priv_set input =
      let trimmed = map_string trim_space (split input b',') in
      map_string to_upper (filter_string string_not_empty trimmed)
