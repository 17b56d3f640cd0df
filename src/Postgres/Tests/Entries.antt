-- ===== src/Postgres/Tests/Entries.antt =====
-- Entries of privileges, versions, flags and access lists.
use db_operator.Base.{
  keep, trim_space, to_upper, contains_byte, has_suffix, read_digits, split, Text, codes, text_eq,
  member, ok, panic, List, [], ◌∷◌, none, some, true, false, ◌≡◌, ◌++◌, refl, has_prefix,
}
use db_operator.Base.Int.{pos, negsuc, atoi}
use db_operator.Postgres.Statements.{grant_database_privileges, revoke_database_privileges}
use db_operator.Postgres.Found.{get_database_privileges_pg}
use db_operator.Interfaces.Funk.{reference_funk}
use db_operator.Interfaces.Pq.{reference_pq}
use db_operator.Api.{DbPriv}
use db_operator.Postgres.Tests.{held, wanted, privs_db}
use db_operator.Postgres.Version.{
  pg_database_privs, postgre_sql, PostgresVersion, parse_version_string, get_valid_privs, all_word,
}
use db_operator.Postgres.Version.Known.{get_valid_privs_total}
use db_operator.Postgres.Privileges.{string_not_empty, normalize_privileges, temp_word, to_priv_set}
use db_operator.Postgres.Privileges.Normalize.{normal_set, member-normalize_privileges}
use db_operator.Postgres.Reconciler.{PrivsReconciler, reconcile_privs}
use db_operator.Postgres.Constructors.{plain, new_table_privs_reconciler}
use db_operator.Postgres.Constructors.Tables.{reconcile_dotted_table}
use db_operator.Postgres.Acl.{find_acl, match_acl_entry}
use db_operator.Postgres.Acl.Suffix.{Skips, find_acl_suffix}
use db_operator.Postgres.Users.{column}

abbrev pub banner : Text
banner = codes "PostgreSQL 13.4 (Debian) on x86_64"

abbrev pub pg13 : PostgresVersion
pg13 = record {
  product_name = postgre_sql;
  version_str = codes "13.4";
  major = pos 13;
  minor = pos 4;
  patch = negsuc 0;
}

parsed_banner : parse_version_string banner ≡ ok pg13
unfolding parse_version_string text_eq split read_digits atoi
parsed_banner = refl

get_valid_privs_total_example :
    (valid : List Text) × (get_valid_privs pg13 (codes "schema") ≡ ok valid)
get_valid_privs_total_example = get_valid_privs_total banner (codes "schema") pg13 parsed_banner

pg13_database : get_valid_privs pg13 (codes "database") ≡ ok pg_database_privs
unfolding get_valid_privs text_eq
pg13_database = refl

member-normalize_privileges_example :
    (ns : List Text) × (normalize_privileges ⦃funk = reference_funk⦄
        (all_word ∷ temp_word ∷ [])
        (codes "database")
        pg13
      ≡ ok ns)
    × ((a : Text)
        → member a ns
          ≡ normal_set ⦃funk = reference_funk⦄ (all_word ∷ temp_word ∷ []) pg_database_privs a)
member-normalize_privileges_example =
    member-normalize_privileges ⦃funk = reference_funk⦄ (all_word ∷ temp_word ∷ [])
      pg_database_privs (codes "database") pg13 pg13_database

abbrev shop_entry : DbPriv
shop_entry = record {
  scope = codes "shop";
  privs = codes "connect, TEMP";
  default_privs = [];
  priv_type = codes "database";
  grantor = none;
}

abbrev shop_reconciler : PrivsReconciler privs_db
shop_reconciler =
    plain ⦃db = privs_db⦄ shop_entry tt (codes "clerk") (codes "shop")
      (codes "CONNECT" ∷ codes "TEMPORARY" ∷ [])
      (grant_database_privileges ⦃pq = reference_pq⦄ ⦃db = privs_db⦄)
      (revoke_database_privileges ⦃pq = reference_pq⦄ ⦃db = privs_db⦄)
      (get_database_privileges_pg ⦃funk = reference_funk⦄ ⦃db = privs_db⦄)

abbrev acl_rest : Text
acl_rest = codes "=Tc/owner"

abbrev role_row : List (Text × Text)
role_row = (codes "rolcreatedb", codes "t") ∷ (codes "rolsuper", codes "f") ∷ []

not_all : has_suffix (codes "public.orders") (codes ".ALL") ≡ false
unfolding has_suffix text_eq
not_all = refl

dotted : contains_byte b'.' (codes "public.orders") ≡ true
unfolding contains_byte
dotted = refl

no_slash : contains_byte b'/' (codes "ALL") ≡ false
unfolding contains_byte
no_slash = refl

only_all : to_priv_set ⦃funk = reference_funk⦄ (codes "ALL") ≡ all_word ∷ []
unfolding to_priv_set split string_not_empty to_upper trim_space keep
only_all = refl

bob-Skips : Skips (codes "bob") (codes "{s") (codes "bob" ++ acl_rest)
unfolding has_prefix
bob-Skips = (refl, (refl, tt))

sbob-Skips : Skips (codes "sbob") (codes "{") (codes "sbob" ++ acl_rest)
unfolding has_prefix
sbob-Skips = (refl, tt)

entry : match_acl_entry acl_rest ≡ some (codes "TEMPORARY" ∷ codes "CONNECT" ∷ [])
unfolding match_acl_entry
entry = refl

unnamed : column [] role_row ≡ none
unfolding column text_eq
unnamed = refl

named : member (codes "NOSUPERUSER") (codes "NOSUPERUSER" ∷ []) ≡ true
unfolding member text_eq
named = refl

no_flag : has_prefix (codes "NOSUPERUSER") (codes "NO") ≡ true
unfolding has_prefix
no_flag = refl

positive_flag : has_prefix (codes "CREATEDB") (codes "NO") ≡ false
unfolding has_prefix
positive_flag = refl

reconcile_dotted_table_example :
    (r : PrivsReconciler privs_db) × (new_table_privs_reconciler ⦃funk = reference_funk⦄
        ⦃pq = reference_pq⦄ ⦃db = privs_db⦄ shop_entry tt
        (codes "clerk")
        (codes "public.orders")
        wanted
        pg13
      ≡ ok r)
    × (reconcile_privs ⦃funk = reference_funk⦄ ⦃db = privs_db⦄ r held ≡ (false, panic, held))
reconcile_dotted_table_example =
    reconcile_dotted_table ⦃funk = reference_funk⦄ ⦃pq = reference_pq⦄ ⦃db = privs_db⦄ shop_entry tt
      (codes "clerk") (codes "public.orders") wanted pg13 held not_all dotted

find_acl_suffix_example :
    (find_acl (codes "bob") ((codes "{" ++ codes "s") ++ (codes "bob" ++ acl_rest))
      ≡ some (codes "TEMPORARY" ∷ codes "CONNECT" ∷ []))
    × (find_acl (codes "sbob") (codes "{" ++ (codes "sbob" ++ acl_rest))
        ≡ some (codes "TEMPORARY" ∷ codes "CONNECT" ∷ []))
    × ((codes "{" ++ codes "s") ++ (codes "bob" ++ acl_rest)
        ≡ codes "{" ++ (codes "sbob" ++ acl_rest))
find_acl_suffix_example =
    find_acl_suffix b's' b'b' [] (codes "ob") (codes "{") acl_rest
      (codes "TEMPORARY" ∷ codes "CONNECT" ∷ []) bob-Skips sbob-Skips entry
