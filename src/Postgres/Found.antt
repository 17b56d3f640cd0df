-- ===== src/Postgres/Found.antt =====
-- How a reconciler reads the privileges that a user holds: the getters of database_privs.go,
-- schema_privs.go, table_privs.go and default_table_privs.go in dbservers/postgres.
use db_operator.Base.{
  Text, codes, contains_byte, to_upper, get_elem?, is_empty, or_panic, dot_in_schema, List, [], ◌∷◌,
  ◌++◌, if◌then◌else◌,
}
use db_operator.Base.Exec.{Exec, pure, raise, lift, wrapping, ◌>>=◌}
use db_operator.Interfaces.Funk.{Funk}
use db_operator.Interfaces.Pq.{Pq}
use db_operator.Interfaces.Sql.{Sql}
use db_operator.Postgres.Version.{PostgresVersion, parse_version_string}
use db_operator.Postgres.Privileges.{normalize_privileges}
use db_operator.Postgres.Select.{
  scan_one, loaded, all_rows, select_first_value_bool, select_first_value_string,
  select_first_value_string_null_to_empty,
}
use db_operator.Postgres.Statements.{concat}
use db_operator.Postgres.Acl.{when, or_none, find_acl, only_row, shown_grant}

module _ ⦃db : Sql⦄ where
  open db use {Conn, World, query, scan_string, scan_array}

  unfoldable pub get_server_version : Conn → Exec World PostgresVersion
  get_server_version conn = do
    version_result ← select_first_value_string conn (codes "SELECT version();") []
    lift (parse_version_string version_result)

  unfoldable pub get_schema_privileges : Conn → Text → Text → Exec World (List Text)
  get_schema_privileges conn user schema =
      if contains_byte b'.' schema then raise dot_in_schema else do
        create_priv ← wrapping (
            select_first_value_bool conn
              (codes "SELECT pg_catalog.has_schema_privilege($1, $2, 'CREATE')")
              (user ∷ schema ∷ []))
        usage_priv ← wrapping (
            select_first_value_bool conn
              (codes "SELECT pg_catalog.has_schema_privilege($1, $2, 'USAGE')")
              (user ∷ schema ∷ []))
        pure (when create_priv (codes "CREATE") ++ when usage_priv (codes "USAGE"))

  abbrev role_table_grants : Text
  role_table_grants =
      codes
        "SELECT privilege_type FROM information_schema.role_table_grants WHERE grantee=$1 AND table_name=$2 AND table_schema=$3"

  unfoldable pub read_table_privileges : Conn → Text → Text → Text → Exec World (List Text)
  read_table_privileges conn user table schema = do
    rows ← wrapping (query conn role_table_grants (user ∷ table ∷ schema ∷ []))
    lift (all_rows (λ row. loaded (scan_one scan_string row)) rows)

  -- `strings.SplitN(table, ".", 1)` is the table itself, so `parts[1]` is out of range
  unfoldable pub get_table_privileges : Conn → Text → Text → Exec World (List Text)
  get_table_privileges conn user table =
      if contains_byte b'.' table
      then (do
        let parts = table ∷ []
        schema ← lift (or_panic (get_elem? parts 0))
        table' ← lift (or_panic (get_elem? parts 1))
        read_table_privileges conn user table' schema)
      else read_table_privileges conn user table (codes "public")

  abbrev tables_without_priv : Text
  tables_without_priv =
      codes
        "SELECT table_schema, table_name FROM information_schema.tables WHERE table_schema = $2 AND has_table_privilege($1, table_schema || '.' || table_name, $3) = false;"

  -- a privilege is found if no table of the schema lacks it
  unfoldable pub get_table_privileges_for_all_tables :
      Conn → Text → Text → List Text → Exec World (List Text)
  get_table_privileges_for_all_tables conn user schema [] = pure []
  get_table_privileges_for_all_tables conn user schema (priv ∷ privs) = do
    rows ← wrapping (query conn tables_without_priv (user ∷ schema ∷ to_upper priv ∷ []))
    rest ← get_table_privileges_for_all_tables conn user schema privs
    pure (when (is_empty rows) priv ++ rest)

  abbrev default_acl_query : Text
  default_acl_query =
      codes
        "SELECT d.defaclacl FROM pg_catalog.pg_default_acl d left join pg_catalog.pg_namespace n on n.oid = d.defaclnamespace WHERE pg_get_userbyid(d.defaclrole) = current_user AND n.nspname is NULL AND d.defaclobjtype = $1;"

  unfoldable pub get_default_privileges_given_by_current_user :
      Conn → Text → Text → Exec World (List Text)
  get_default_privileges_given_by_current_user conn object_type user = do
    rows ← query conn default_acl_query (object_type ∷ [])
    lift (only_row object_type user rows)

module _ ⦃pq : Pq⦄ ⦃db : Sql⦄ where
  open db use {Conn, World, query, scan_string, scan_bool}

  unfoldable pub get_database_privileges_crdb : Conn → Text → Text → Exec World (List Text)
  get_database_privileges_crdb conn user name = do
    rows ←
        query conn
          (concat (
            codes "SHOW GRANTS ON DATABASE "
            ∷ pq.quote_identifier name
            ∷ codes " FOR "
            ∷ pq.quote_identifier user
            ∷ codes ";"
            ∷ []))
          []
    lift (all_rows shown_grant rows)

module _ ⦃funk : Funk⦄ ⦃db : Sql⦄ where
  open db use {Conn, World}

  unfoldable pub get_database_privileges_pg : Conn → Text → Text → Exec World (List Text)
  get_database_privileges_pg conn user name = do
    datacl ← wrapping (
        select_first_value_string_null_to_empty conn
          (codes "SELECT datacl FROM pg_database WHERE datname = $1") (name ∷ []))
    server_version ← get_server_version conn
    lift (normalize_privileges (or_none (find_acl user datacl)) (codes "database") server_version)
