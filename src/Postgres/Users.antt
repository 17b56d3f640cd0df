-- ===== src/Postgres/Users.antt =====
-- `UpdateUserPrivs`, `RevokeAllDbPrivs` and their helpers in dbservers/postgres/privileges.go. A
-- query is the source's with its white space collapsed.
pub mod RoleAttrs
use db_operator.Base.{
  Text, codes, text_eq, has_prefix, join, is_empty, ok, err, panic, or_panic, invalid_object_type,
  List, [], ◌∷◌, Option, none, some, Bool, true, false, not, ◌||◌, if◌then◌else◌,
}
use db_operator.Base.Exec.{Exec, pure, raise, lift, ◌>>=◌, ◌>>◌}
use db_operator.Interfaces.Funk.{Funk}
use db_operator.Interfaces.Pq.{Pq}
use db_operator.Interfaces.Sql.{Sql}
use db_operator.Api.{DbPriv}
use db_operator.Shared.Strings.{is_allowed_variable}
use db_operator.Postgres.Version.{PostgresVersion}
use db_operator.Postgres.Privileges.{parse_role_attrs, authid_column}
use db_operator.Postgres.Select.{scan_one, loaded, all_rows}
use db_operator.Postgres.Reconciler.{
  PrivsReconciler, Changes, done, reconcile_privs, revoke_all_privs,
}
use db_operator.Postgres.Statements.{concat}
use db_operator.Postgres.Found.{get_server_version}
use db_operator.Postgres.Constructors.{ConnectionGetter, get_privs_reconciler}

-- a row as a map: of two columns with one name the later counts
unfoldable pub column {ℓ} : {V : Type ℓ} → Text → List (Text × V) → Option V
column name [] = none
column name ((col, v) ∷ row) =
    let later = column name row in
    elim later [ some w ↦ some w | none ↦ if text_eq col name then some v else none ]

abbrev same_bool : Bool → Bool → Bool
same_bool true b = b
same_bool false b = not b

-- the comparison of an `interface{}` with a `bool`
abbrev is_bool : Option Bool → Bool → Bool
is_bool none b = false
is_bool (some a) b = same_bool a b

module _ ⦃db : Sql⦄ where
  open db use {Conn, World, Value, query, as_bool, scan_string}

  abbrev found_bool : Option Value → Option Bool
  found_bool none = none
  found_bool (some v) = as_bool v

  -- a flag whose column does not hold the value that the flag asks for
  unfoldable pub flag_differs : List (Text × Value) → Text → Bool
  unfolding column
  flag_differs row flag =
      let role_attr_value = not (has_prefix flag (codes "NO")) in
      not (is_bool (found_bool (column (authid_column flag) row)) role_attr_value)

  -- `serverPrivsChanging`
  unfoldable pub server_privs_changing : List (Text × Value) → List Text → Bool
  unfolding flag_differs
  server_privs_changing row [] = false
  server_privs_changing row (flag ∷ flags) =
      flag_differs row flag || server_privs_changing row flags

  abbrev schemas_query : Text
  schemas_query =
      codes
        "SELECT nspname FROM pg_catalog.pg_namespace WHERE nspname NOT IN ('crdb_internal', 'information_schema', 'pg_catalog', 'pg_extension', 'pg_toast');"

  -- the names, in the order of the rows; Go's map gives them in an order of its own
  unfoldable pub get_schemas : Conn → Exec World (List Text)
  get_schemas conn = do
    rows ← query conn schemas_query []
    lift (all_rows (λ row. loaded (scan_one scan_string row)) rows)

  abbrev databases_query : Text
  databases_query =
      codes
        "SELECT d.datname AS database_name FROM pg_database d CROSS JOIN pg_roles r WHERE d.datname NOT IN ('template0', 'template1', 'postgres') AND r.rolname = $1 AND has_database_privilege(r.rolname, d.datname, 'CONNECT');"

  unfoldable pub get_databases_user_has_access_to : Conn → Text → Exec World (List Text)
  get_databases_user_has_access_to conn user_name = do
    rows ← query conn databases_query (user_name ∷ [])
    lift (all_rows (λ row. loaded (scan_one scan_string row)) rows)

module _ ⦃funk : Funk⦄ ⦃pq : Pq⦄ ⦃db : Sql⦄ where
  open db use {Conn, World, exec, query_table}
  open pq use {quote_identifier}

  unfoldable pub revoke_defaulted_privs : Conn → Text → Text → Text → Exec World (Unit {0})
  revoke_defaulted_privs conn obj_type user_name schema_name =
      if not (
        is_allowed_variable obj_type (codes "TABLES" ∷ codes "SEQUENCES" ∷ codes "FUNCTIONS" ∷ [])
          false)
      then raise (invalid_object_type obj_type)
      else exec conn
          (concat (
            codes "REVOKE ALL PRIVILEGES ON ALL "
            ∷ obj_type
            ∷ codes " IN SCHEMA "
            ∷ quote_identifier schema_name
            ∷ codes " FROM "
            ∷ quote_identifier user_name
            ∷ codes ";"
            ∷ []))
          []

  unfoldable pub revoke_in_schemas : Conn → Text → Text → List Text → Exec World (Unit {0})
  revoke_in_schemas conn obj_type user [] = pure tt
  revoke_in_schemas conn obj_type user (schema ∷ schemas) = do
    revoke_defaulted_privs conn obj_type user schema
    revoke_in_schemas conn obj_type user schemas

  -- one round of the loop of `RevokeAllDbPrivs`
  unfoldable pub revoke_one : Text → PrivsReconciler db → Exec World (Unit {0})
  revoke_one user r =
      if r.is_default_priv_reconciler
      then (do
        schemas ← get_schemas r.conn
        revoke_in_schemas r.conn r.default_priv_object_type user schemas
        revoke_all_privs r)
      else revoke_all_privs r

  unfoldable pub revoke_each :
      Text → PostgresVersion → ConnectionGetter → List DbPriv → Exec World (Unit {0})
  revoke_each user version getter [] = pure tt
  revoke_each user version getter (p ∷ ps) = do
    r ← get_privs_reconciler user p version getter
    revoke_one user r
    revoke_each user version getter ps

  unfoldable pub revoke_all_db_privs :
      Conn → Text → List DbPriv → ConnectionGetter → Exec World (Unit {0})
  revoke_all_db_privs conn user db_privs getter = do
    version ← get_server_version conn
    revoke_each user version getter db_privs

  -- the ALTER USER of `UpdateUserPrivs`
  unfoldable pub alter_user_statement : Text → List Text → Text
  alter_user_statement user_name role_attr_flags =
      let alter = concat (codes "ALTER USER " ∷ quote_identifier user_name ∷ []) in
      if is_empty role_attr_flags
      then alter
      else join (alter ∷ concat (codes "WITH " ∷ join role_attr_flags (codes " ") ∷ []) ∷ [])
          (codes " ")

  -- `SELECT * FROM pg_roles`, the version and the flags: whether the flags change, and the flags
  unfoldable pub plan_role_attrs :
      Conn → Text → Text → Exec World (PostgresVersion × Bool × List Text)
  plan_role_attrs conn user_name server_privs = do
    maps ← query_table conn (codes "SELECT * FROM pg_roles WHERE rolname = $1") (user_name ∷ [])
    current ← lift (or_panic (elim maps [ [] ↦ none | row ∷ _ ↦ some row ]))
    version ← get_server_version conn
    role_attr_flags ← lift (parse_role_attrs server_privs 0)
    pure (version, server_privs_changing current role_attr_flags, role_attr_flags)

  -- the ALTER USER, if it is wanted; whether it was made
  unfoldable pub alter_role : Conn → Text → Bool → List Text → Exec World Bool
  alter_role conn user_name changing role_attr_flags =
      if changing
      then (do exec conn (alter_user_statement user_name role_attr_flags) []; pure true)
      else pure false

  -- the loop over `dbPrivs`; an error comes with what was changed before it
  unfoldable pub reconcile_each :
      Text → PostgresVersion → ConnectionGetter → Bool → List DbPriv → World → Changes World
  reconcile_each user version getter changed [] w = done changed w
  reconcile_each user version getter changed (p ∷ ps) w =
      let built = get_privs_reconciler user p version getter w in
      elim built.0 [
        | err e ↦ (changed, err e, built.1)
        | panic ↦ (changed, panic, built.1)
        | ok r ↦
            let out = reconcile_privs r built.1 in
            elim out.1 [
              | err e ↦ (changed, err e, out.2)
              | panic ↦ (changed, panic, out.2)
              | ok _ ↦ reconcile_each user version getter (changed || out.0) ps out.2
            ]
      ]

  unfoldable pub update_user_privs :
      Conn → Text → Text → List DbPriv → ConnectionGetter → World → Changes World
  update_user_privs conn user_name server_privs db_privs getter w =
      let planned = plan_role_attrs conn user_name server_privs w in
      elim planned.0 [
        | err e ↦ (false, err e, planned.1)
        | panic ↦ (false, panic, planned.1)
        | ok (version, changing, role_attr_flags) ↦
            let altered = alter_role conn user_name changing role_attr_flags planned.1 in
            elim altered.0 [
              | err e ↦ (false, err e, altered.1)
              | panic ↦ (false, panic, altered.1)
              | ok changed ↦ reconcile_each user_name version getter changed db_privs altered.1
            ]
      ]
