-- ===== src/Postgres/Version.antt =====
-- `PostgresVersion`, `GetValidPrivs` and `parseVersionString` of dbservers/postgres/privileges.go.
pub mod Known
use db_operator.Base.{
  Text, codes, Result, ok, err, panic, or_panic, bad_version, unexpected_product, text_eq, split,
  get_elem?, List, [], ◌∷◌, none, some, if◌then◌else◌, ◌>>=◌,
}
use db_operator.Base.Int.{ℤ, negsuc, atoi}

pub record PostgresVersion : Type 0 where
  pub product_name : Text
  pub version_str : Text
  pub major : ℤ
  pub minor : ℤ
  pub patch : ℤ

abbrev pub postgre_sql : Text
postgre_sql = codes "PostgreSQL"

abbrev pub cockroach_db : Text
cockroach_db = codes "CockroachDB"

abbrev pub all_word : Text
all_word = codes "ALL"

abbrev pub pg_database_privs : List Text
pg_database_privs =
    codes "CREATE" ∷ codes "CONNECT" ∷ codes "TEMPORARY" ∷ codes "TEMP" ∷ all_word ∷ []

abbrev pub pg_table_privs : List Text
pg_table_privs =
    codes "SELECT"
    ∷ codes "INSERT"
    ∷ codes "UPDATE"
    ∷ codes "DELETE"
    ∷ codes "TRUNCATE"
    ∷ codes "REFERENCES"
    ∷ codes "TRIGGER"
    ∷ all_word
    ∷ []

abbrev pub crdb_database_privs : List Text
crdb_database_privs =
    codes "CREATE" ∷ codes "CONNECT" ∷ codes "BACKUP" ∷ codes "RESTORE" ∷ all_word ∷ []

abbrev pub crdb_table_privs : List Text
crdb_table_privs =
    codes "SELECT"
    ∷ codes "INSERT"
    ∷ codes "UPDATE"
    ∷ codes "DELETE"
    ∷ codes "TRUNCATE"
    ∷ codes "REFERENCES"
    ∷ codes "TRIGGER"
    ∷ codes "BACKUP"
    ∷ all_word
    ∷ []

abbrev pub schema_privs : List Text
schema_privs = codes "CREATE" ∷ codes "USAGE" ∷ []

-- the map literals; a type that is not a key gives nil
abbrev pub by_type : List Text → List Text → Text → List Text
by_type database table priv_type =
    if text_eq priv_type (codes "database")
    then database
    else if text_eq priv_type (codes "table")
    then table
    else if text_eq priv_type (codes "schema")
    then schema_privs
    else []

-- `log.Fatalf` ends the process, as a panic does
unfoldable pub get_valid_privs : PostgresVersion → Text → Result (List Text)
get_valid_privs p priv_type =
    if text_eq p.product_name postgre_sql
    then ok (by_type pg_database_privs pg_table_privs priv_type)
    else if text_eq p.product_name cockroach_db
    then ok (by_type crdb_database_privs crdb_table_privs priv_type)
    else panic

-- `strconv.Atoi` of a part, with the part's error
abbrev pub parse_part : Text → Text → Result ℤ
parse_part name part = elim (atoi part) [ none ↦ err (bad_version name) | some n ↦ ok n ]

-- `versionStr[1:]`
abbrev pub drop_byte : Text → Result Text
drop_byte [] = panic
drop_byte (c ∷ s) = ok s

abbrev pub parse_numbers : Text → Text → List Text → Result PostgresVersion
parse_numbers product version_str parts = do
  major_part ← or_panic (get_elem? parts 0)
  major ← parse_part (codes "major") major_part
  minor_part ← or_panic (get_elem? parts 1)
  minor ← parse_part (codes "minor") minor_part
  patch ← (elim (get_elem? parts 2) [
    | none ↦ ok (negsuc 0)
    | some part ↦ parse_part (codes "patch") part
  ])
  ok (record {
    product_name = product;
    version_str = version_str;
    major = major;
    minor = minor;
    patch = patch;
  })

-- the branch of the product that the first word names
unfoldable pub parse_product : Text → List Text → Result PostgresVersion
parse_product product parts =
    if text_eq product postgre_sql
    then (do
      version_str ← or_panic (get_elem? parts 1)
      parse_numbers product version_str (split version_str b'.'))
    else if text_eq product cockroach_db
    then (do
      version_str ← or_panic (get_elem? parts 2)
      rest ← drop_byte version_str
      parse_numbers product version_str (split rest b'.'))
    else err (unexpected_product product)

unfoldable pub parse_version_string : Text → Result PostgresVersion
unfolding parse_product
parse_version_string version_result = do
  let parts = split version_result b' '
  product ← or_panic (get_elem? parts 0)
  parse_product product parts
