-- ===== src/Postgres/Tests/Databases.antt =====
-- A server with one database, on which a user may have CONNECT, and a reconciler that is built for it.
use db_operator.Base.{
  Text, codes, text_eq, text_eq_iff, member, keep, has_prefix, ok, List, [], ◌∷◌, none, some, Bool,
  true, false, not, ◌&&◌, ◌≡◌, refl, arith, SameSet, if◌then◌else◌, trim_prefix, to_lower,
  trim_space, to_upper, contains_byte, split, read_digits,
}
use db_operator.Base.Int.{atoi}
use db_operator.Interfaces.Funk.{unique, subset_of, reference_funk}
use db_operator.Interfaces.Pq.{reference_pq}
use db_operator.Interfaces.Sql.{Sql}
use db_operator.Api.{DbPriv}
use db_operator.Postgres.Version.{parse_version_string, get_valid_privs}
use db_operator.Postgres.Privileges.{
  remove, expand_temp, expand_all, string_not_empty, normalize_privileges, to_priv_set,
}
use db_operator.Postgres.Acl.{find_acl, match_acl_entry}
use db_operator.Postgres.Select.{
  first_value, first_or_empty, select_first_value_string, select_first_value_string_null_to_empty,
}
use db_operator.Postgres.Statements.{
  grant_database_statement, revoke_database_statement, grant_database_privileges,
  revoke_database_privileges,
}
use db_operator.Postgres.Found.{get_server_version, get_database_privileges_pg}
use db_operator.Postgres.Reconciler.{PrivsReconciler, reconcile_privs}
use db_operator.Postgres.Reconciler.Convergence.{
  Serves, revoked, granted, reconcile_privs-converges, reconcile_privs-settled,
}
use db_operator.Postgres.Constructors.{
  new_database_privs_reconciler, validate_and_normalize, normalize_typed, normalize_db_priv, plain,
  build_reconciler, constructor_for, checked_priv_set,
}
use db_operator.Postgres.Tests.Entries.{banner, pg13}

abbrev connect : Text
connect = codes "CONNECT"

abbrev datacl : Bool → Text
datacl w = if w then codes "{clerk=c/root}" else codes "{root=CTc/root}"

-- the state: whether the user may connect
abbrev one_database : Sql
one_database = record {
  Conn = Unit {0};
  World = Bool;
  Value = Text;
  query = λ c q args w.
      (ok (((if has_prefix q (codes "SELECT version") then banner else datacl w) ∷ []) ∷ []), w);
  exec = λ c q args w. (ok tt, not (has_prefix q (codes "REVOKE")));
  scan_string = λ v. some (some v);
  scan_int = λ v. none;
  scan_bool = λ v. none;
  scan_array = λ v. none;
  as_bool = λ v. none;
  query_table = λ c q args w. (ok [], w);
}

abbrev connect_entry : DbPriv
connect_entry = record {
  scope = codes "shop";
  privs = codes "connect";
  default_privs = [];
  priv_type = codes "database";
  grantor = none;
}

abbrev connect_reconciler : PrivsReconciler one_database
connect_reconciler =
    plain ⦃db = one_database⦄ connect_entry tt (codes "clerk") (codes "shop") (connect ∷ [])
      (grant_database_privileges ⦃pq = reference_pq⦄ ⦃db = one_database⦄)
      (revoke_database_privileges ⦃pq = reference_pq⦄ ⦃db = one_database⦄)
      (get_database_privileges_pg ⦃funk = reference_funk⦄ ⦃db = one_database⦄)

-- what the program builds for the entry
connect_built :
    build_reconciler ⦃funk = reference_funk⦄ ⦃pq = reference_pq⦄ ⦃db = one_database⦄
      (codes "clerk")
      connect_entry
      pg13
      (codes "shop")
      tt
    ≡ ok connect_reconciler
unfolding build_reconciler checked_priv_set normalize_db_priv normalize_typed validate_and_normalize
    normalize_privileges expand_all expand_temp remove to_priv_set get_valid_privs constructor_for
    new_database_privs_reconciler text_eq split member subset_of unique string_not_empty to_upper
    to_lower trim_prefix has_prefix contains_byte trim_space keep
connect_built = refl

abbrev IsConnect : Text → Type 0
IsConnect a = a ≡ connect

abbrev Always : Bool → Type 0
Always w = Unit {0}

abbrev held_by : Bool → List Text
held_by w = if w then connect ∷ [] else []

read_privs :
    (w : Bool)
    → connect_reconciler.privs_get_fun tt (codes "clerk") (codes "shop") w ≡ (ok (held_by w), w)
unfolding get_database_privileges_pg get_server_version select_first_value_string
    select_first_value_string_null_to_empty first_value first_or_empty parse_version_string find_acl
    match_acl_entry normalize_privileges expand_all expand_temp remove get_valid_privs text_eq split
    member unique to_lower trim_prefix has_prefix keep read_digits atoi
read_privs true = refl
read_privs false = refl

only_connect : (a : Text) → member a (connect ∷ []) ≡ true → IsConnect a
unfolding member
only_connect a m = ground (arith, text_eq_iff a connect, text_eq_iff connect a, m)

held_words : (w : Bool) (a : Text) → member a (held_by w) ≡ true → IsConnect a
unfolding member
held_words true a m = only_connect a m
held_words false a m = cc

after_revoke :
    (ps : List Text) (w : Bool)
    → revoked ⦃funk = reference_funk⦄ ⦃db = one_database⦄ connect_reconciler ps w ≡ (ok tt, false)
unfolding revoke_database_privileges revoke_database_statement text_eq has_prefix
after_revoke ps w = refl

after_grant :
    (ps : List Text) (w : Bool)
    → granted ⦃funk = reference_funk⦄ ⦃db = one_database⦄ connect_reconciler ps w ≡ (ok tt, true)
unfolding grant_database_privileges grant_database_statement text_eq has_prefix
after_grant ps w = refl

head-connect :
    (p : Text) (ps : List Text)
    → ((a : Text) → member a (p ∷ ps) ≡ true → IsConnect a)
    → p ≡ connect
unfolding member
head-connect p ps words = words p (ground (arith, text_eq_iff p p))

connect_only :
    (p : Text) (ps : List Text) (a : Text)
    → ((b : Text) → member b (p ∷ ps) ≡ true → IsConnect b)
    → member a (p ∷ ps) ≡ text_eq a connect
unfolding member
connect_only p ps a words =
    ground (arith, words a, head-connect p ps words, text_eq_iff a connect, text_eq_iff p a)

held_by-connect : (w : Bool) (a : Text) → member a (held_by w) ≡ (w && text_eq a connect)
unfolding member
held_by-connect true a = ground (arith, text_eq_iff a connect, text_eq_iff connect a)
held_by-connect false a = refl

connect_reconciler-Serves :
    Serves ⦃funk = reference_funk⦄ ⦃db = one_database⦄ connect_reconciler IsConnect Always held_by
connect_reconciler-Serves = record {
  desired_words = only_connect;
  held_words = λ w up. held_words w;
  found = λ w up. read_privs w;
  revoke_ok = λ p ps w up words. rw (after_revoke (p ∷ ps) w) (refl, tt);
  revoke_privs = λ p ps w a up words.
      rw (after_revoke (p ∷ ps) w)
        (ground (arith, held_by-connect w a, held_by-connect false a, connect_only p ps a words));
  grant_ok = λ p ps w up words. rw (after_grant (p ∷ ps) w) (refl, tt);
  grant_privs = λ p ps w a up words.
      rw (after_grant (p ∷ ps) w)
        (ground (arith, held_by-connect w a, held_by-connect true a, connect_only p ps a words));
}

reconcile_privs-converges_example :
    ((reconcile_privs ⦃funk = reference_funk⦄ ⦃db = one_database⦄ connect_reconciler false).1
      ≡ ok tt)
    × Always
        (reconcile_privs ⦃funk = reference_funk⦄ ⦃db = one_database⦄ connect_reconciler false).2
    × SameSet
        (held_by
          (reconcile_privs ⦃funk = reference_funk⦄ ⦃db = one_database⦄ connect_reconciler false).2)
        (connect ∷ [])
reconcile_privs-converges_example =
    reconcile_privs-converges ⦃funk = reference_funk⦄ ⦃db = one_database⦄ connect_reconciler
      IsConnect Always held_by connect_reconciler-Serves false tt

reconcile_privs-settled_example :
    reconcile_privs ⦃funk = reference_funk⦄ ⦃db = one_database⦄ connect_reconciler true
    ≡ (false, ok tt, true)
reconcile_privs-settled_example =
    reconcile_privs-settled ⦃funk = reference_funk⦄ ⦃db = one_database⦄ connect_reconciler IsConnect
      Always held_by connect_reconciler-Serves true tt (λ a. refl)
