-- ===== src/Postgres/Constructors.antt =====
-- The constructors of reconcilers, `normalizeDbPriv` and `GetPrivsReconciler`, in
-- dbservers/postgres: privs_reconciler.go, database_privs.go, schema_privs.go, table_privs.go and
-- default_table_privs.go.
pub mod Valid
pub mod Tables
pub mod DefaultAll
use db_operator.Base.{
  Text, codes, text_eq, contains_byte, has_suffix, trim_suffix, trim_prefix, split, split_two,
  get_elem?, to_lower, is_empty, Result, ok, err, or_panic, invalid_privs, invalid_priv_type,
  invalid_scope, default_privs_with_type, default_privs_on, both_privs, no_privs, slash_in_privs,
  List, [], Option, none, some, Bool, true, false, not, ◌&&◌, if◌then◌else◌, ◌>>=◌,
}
use db_operator.Base.Exec.{Exec, lift}
use db_operator.Base.Exec.{◌>>=◌ as and_then}
use db_operator.Interfaces.Funk.{Funk}
use db_operator.Interfaces.Pq.{Pq}
use db_operator.Interfaces.Sql.{Sql}
use db_operator.Api.{DbPriv}
use db_operator.Postgres.Version.{PostgresVersion, get_valid_privs, cockroach_db}
use db_operator.Postgres.Privileges.{
  normalize_privileges, to_priv_set, get_scope_after_db, get_db_name_from_scope_name,
}
use db_operator.Postgres.Reconciler.{PrivsReconciler}
use db_operator.Postgres.Statements.{
  PrivsAdjuster, grant_database_privileges, revoke_database_privileges, grant_schema_privileges,
  revoke_schema_privileges, grant_table_privileges, revoke_table_privileges,
  grant_privileges_on_all_tables, revoke_privileges_on_all_tables, grant_default_table_privileges,
  revoke_default_table_privileges,
}
use db_operator.Postgres.Found.{
  get_schema_privileges, get_table_privileges, get_table_privileges_for_all_tables,
  get_default_privileges_given_by_current_user, get_database_privileges_crdb,
  get_database_privileges_pg,
}

abbrev or_empty : Option Text → Text
or_empty none = []
or_empty (some t) = t

abbrev pub not_empty : Text → Bool
not_empty t = not (is_empty t)

module _ ⦃funk : Funk⦄ where
  -- with `PrivType` set
  unfoldable pub normalize_typed : DbPriv → Result (Text × Text × List Text)
  normalize_typed p = if not_empty p.default_privs then err default_privs_with_type else do
    scoped_name ←
        (if text_eq p.priv_type (codes "defaultTable")
          then ok (or_empty p.grantor)
          else if text_eq p.priv_type (codes "schema")
          then get_scope_after_db p.scope
          else ok p.scope)
    ok (p.priv_type, scoped_name, to_priv_set p.privs)

  -- without it, from `Privs`
  unfoldable pub normalize_privs : DbPriv → Text → Result (Text × Text × List Text)
  normalize_privs p db_name =
      if contains_byte b':' p.privs
      then (do
        let elements = split p.privs b':'
        scoped_name ← or_panic (get_elem? elements 0)
        privileges ← or_panic (get_elem? elements 1)
        ok (codes "table", scoped_name, to_priv_set privileges))
      else if contains_byte b'.' p.scope
      then (do
        scoped_name ← get_scope_after_db p.scope
        ok (codes "schema", scoped_name, to_priv_set p.privs))
      else ok (codes "database", db_name, to_priv_set p.privs)

  -- without it, from the deprecated `DefaultPrivs`
  unfoldable pub normalize_default : DbPriv → Result (Text × Text × List Text)
  normalize_default p = do
    scope_after_db ← get_scope_after_db p.scope
    if text_eq scope_after_db (codes "TABLES")
        then ok (codes "defaultTable", or_empty p.grantor, to_priv_set p.default_privs)
        else err (default_privs_on scope_after_db)

  unfoldable pub normalize_db_priv : DbPriv → Text → Result (Text × Text × List Text)
  normalize_db_priv p db_name =
      if not_empty p.priv_type
      then normalize_typed p
      else if not_empty p.privs
      then normalize_privs p db_name
      else if not_empty p.default_privs
      then normalize_default p
      else err no_privs

  -- the validity check and the normalisation of `GetPrivsReconciler`
  unfoldable pub validate_and_normalize :
      PostgresVersion → Text → Text → List Text → Result (Text × Text × List Text)
  validate_and_normalize server_version priv_type scoped_name priv_set = do
    let stripped = to_lower (trim_prefix priv_type (codes "default"))
    valid ← get_valid_privs server_version stripped
    if funk.subset priv_set valid
        then (do
          normalized ← normalize_privileges priv_set priv_type server_version
          ok (priv_type, scoped_name, normalized))
        else err (invalid_privs stripped (funk.subtract priv_set valid))

  -- all that it does before it looks up a constructor: type, scoped name and privileges
  unfoldable pub checked_priv_set :
      DbPriv → Text → PostgresVersion → Result (Text × Text × List Text)
  checked_priv_set p db_name server_version =
      if not_empty p.privs && not_empty p.default_privs
      then err both_privs
      else if contains_byte b'/' p.privs
      then err slash_in_privs
      else do
        (priv_type, scoped_name, priv_set) ← normalize_db_priv p db_name
        validate_and_normalize server_version priv_type scoped_name priv_set

module _ ⦃funk : Funk⦄ ⦃pq : Pq⦄ ⦃db : Sql⦄ where
  open db use {Conn, World}

  -- the type `privsReconcilerConstructor`
  abbrev pub Constructor : Type 0
  Constructor =
      DbPriv → Conn → Text → Text → List Text → PostgresVersion → Result (PrivsReconciler db)

  abbrev pub plain :
      DbPriv
      → Conn
      → Text
      → Text
      → List Text
      → PrivsAdjuster
      → PrivsAdjuster
      → (Conn → Text → Text → Exec World (List Text))
      → PrivsReconciler db
  plain p conn user_name scoped_name priv_set grant revoke found = record {
    db_priv = p;
    desired_priv_set = priv_set;
    user_name = user_name;
    scoped_name = scoped_name;
    is_default_priv_reconciler = false;
    default_priv_object_type = [];
    conn = conn;
    grant_fun = grant;
    revoke_fun = revoke;
    privs_get_fun = found;
  }

  unfoldable pub new_database_privs_reconciler : Constructor
  new_database_privs_reconciler p conn user_name db_name priv_set version = ok (
      plain p conn user_name db_name priv_set grant_database_privileges revoke_database_privileges (
        if text_eq version.product_name cockroach_db
        then get_database_privileges_crdb
        else get_database_privileges_pg))

  unfoldable pub new_schema_privs_reconciler : Constructor
  new_schema_privs_reconciler p conn user_name schema_name priv_set version = ok (
      plain p conn user_name schema_name priv_set grant_schema_privileges revoke_schema_privileges
        get_schema_privileges)

  unfoldable pub new_table_privs_reconciler : Constructor
  new_table_privs_reconciler p conn user_name scoped_name priv_set version =
      let stripped = trim_suffix scoped_name (codes ".ALL") in
      if has_suffix scoped_name (codes ".ALL")
      then (if contains_byte b'.' stripped
          then (do
            schema ← or_panic (get_elem? (split_two stripped b'.') 1)
            ok (
                plain p conn user_name schema priv_set grant_privileges_on_all_tables
                  revoke_privileges_on_all_tables
                  (λ c user name. get_table_privileges_for_all_tables c user name priv_set)))
          else err (invalid_scope stripped))
      else ok (
          plain p conn user_name scoped_name priv_set grant_table_privileges revoke_table_privileges
            get_table_privileges)

  unfoldable pub new_default_table_privs_reconciler : Constructor
  new_default_table_privs_reconciler p conn user_name table_name priv_set version = ok (record {
    db_priv = p;
    desired_priv_set = priv_set;
    user_name = user_name;
    scoped_name = table_name;
    is_default_priv_reconciler = true;
    default_priv_object_type = codes "TABLES";
    conn = conn;
    grant_fun = grant_default_table_privileges;
    revoke_fun = revoke_default_table_privileges;
    privs_get_fun = λ c user name. get_default_privileges_given_by_current_user c (codes "r") user;
  })

  -- `PRIVS_RECONCILER_CONSTRUCTORS`
  unfoldable pub constructor_for : Text → Option Constructor
  constructor_for priv_type =
      if text_eq priv_type (codes "table")
      then some new_table_privs_reconciler
      else if text_eq priv_type (codes "defaultTable")
      then some new_default_table_privs_reconciler
      else if text_eq priv_type (codes "database")
      then some new_database_privs_reconciler
      else if text_eq priv_type (codes "schema")
      then some new_schema_privs_reconciler
      else none

  unfoldable pub construct :
      Text → DbPriv → PostgresVersion → Conn → Text → Text → List Text → Result (PrivsReconciler db)
  construct user_name p version conn priv_type scoped_name priv_set =
      elim (constructor_for priv_type) [
        | none ↦ err (invalid_priv_type priv_type)
        | some make ↦ make p conn user_name scoped_name priv_set version
      ]

  -- what `GetPrivsReconciler` does with its connection
  unfoldable pub build_reconciler :
      Text → DbPriv → PostgresVersion → Text → Conn → Result (PrivsReconciler db)
  unfolding construct
  build_reconciler user_name p version db_name conn = do
    (priv_type, scoped_name, priv_set) ← checked_priv_set p db_name version
    construct user_name p version conn priv_type scoped_name priv_set

  -- the type `ConnectionGetter`
  abbrev pub ConnectionGetter : Type 0
  ConnectionGetter = Option Text → Option Text → Exec World Conn

  unfoldable pub get_privs_reconciler :
      Text → DbPriv → PostgresVersion → ConnectionGetter → Exec World (PrivsReconciler db)
  get_privs_reconciler user_name p version connection_getter =
      let db_name = get_db_name_from_scope_name p.scope in
      and_then (connection_getter p.grantor (some db_name))
        (λ conn. lift (build_reconciler user_name p version db_name conn))
