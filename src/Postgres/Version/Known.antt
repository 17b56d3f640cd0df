-- ===== src/Postgres/Version/Known.antt =====
-- A parsed version names a product whose privileges are known.
use db_operator.Base.{
  Text, text_eq, ok, or_panic, split, get_elem?, List, [], ◌∷◌, true, ◌≡◌, ◌⊎◌, inl, inr, arith,
  Bool-cases, ◌>>=◌,
}
use db_operator.Postgres.Version.{
  PostgresVersion, postgre_sql, cockroach_db, pg_database_privs, pg_table_privs,
  crdb_database_privs, crdb_table_privs, by_type, get_valid_privs, parse_numbers, parse_product,
  parse_version_string,
}

abbrev pub IsKnown : PostgresVersion → Type 0
IsKnown v =
    (text_eq v.product_name postgre_sql ≡ true) ⊎ (text_eq v.product_name cockroach_db ≡ true)

parse_numbers-product :
    (product version_str : Text) (parts : List Text) (v : PostgresVersion)
    → parse_numbers product version_str parts ≡ ok v
    → v.product_name ≡ product
parse_numbers-product product version_str parts v h = ground arith

parse_product-IsKnown :
    (product : Text) (parts : List Text) (v : PostgresVersion)
    → parse_product product parts ≡ ok v
    → IsKnown v
unfolding parse_product
parse_product-IsKnown product parts v h = ground arith

get_valid_privs-IsKnown :
    (v : PostgresVersion) (priv_type : Text)
    → IsKnown v
    → (valid : List Text) × (get_valid_privs v priv_type ≡ ok valid)
unfolding get_valid_privs
get_valid_privs-IsKnown v priv_type (inl pg) =
    (by_type pg_database_privs pg_table_privs priv_type, rw pg)
get_valid_privs-IsKnown v priv_type (inr crdb) =
    elim (Bool-cases (text_eq v.product_name postgre_sql)) [
      | inl pg ↦ (by_type pg_database_privs pg_table_privs priv_type, rw pg)
      | inr other ↦ (by_type crdb_database_privs crdb_table_privs priv_type, rw (other, crdb))
    ]

-- For every version string that parses, and every type of privilege, the valid privileges are
-- found: `GetValidPrivs` does not end the process for an unknown product.
pub get_valid_privs_total :
    (s priv_type : Text) (v : PostgresVersion)
    → parse_version_string s ≡ ok v
    → (valid : List Text) × (get_valid_privs v priv_type ≡ ok valid)
unfolding parse_version_string
get_valid_privs_total s priv_type v h = get_valid_privs-IsKnown v priv_type (known (split s b' ') h)
  where
    known :
        (parts : List Text)
        → (or_panic (get_elem? parts 0) >>= λ product. parse_product product parts) ≡ ok v
        → IsKnown v
    known [] e = cc
    known (product ∷ rest) e = parse_product-IsKnown product (product ∷ rest) v e
