-- ===== src/Postgres/Connection.antt =====
-- `PostgresConnection` of dbservers/postgres/connection.go, without its backup statements. The cache
-- of connections is part of the world, and is reached through `GetDbConnection`.
pub mod Drop
use db_operator.Base.{
  Text, codes, text_eq, contains_byte, is_empty, Result, ok, err, panic, exclusive_options,
  unsupported, List, [], ◌∷◌, ◌++◌, Option, none, some, Bool, true, false, not, ◌&&◌, if◌then◌else◌,
}
use db_operator.Base.{cannot_load, ◌>>=◌ as and_then}
use db_operator.Base.Maps.{store}
use db_operator.Base.Exec.{Exec, pure, raise, lift, wrapping, ◌>>=◌, ◌>>◌}
use db_operator.Interfaces.Funk.{Funk}
use db_operator.Interfaces.Pq.{Pq}
use db_operator.Interfaces.Sql.{Sql}
use db_operator.Api.{DbPriv, DropUserOptions, UserSpec}
use db_operator.Postgres.Privileges.{get_db_name_from_scope_name}
use db_operator.Postgres.Select.{scan_one, loaded, all_rows}
use db_operator.Postgres.Reconciler.{Changes}
use db_operator.Postgres.Statements.{concat}
use db_operator.Postgres.Constructors.{ConnectionGetter}
use db_operator.Postgres.Users.{
  get_databases_user_has_access_to, get_schemas, revoke_all_db_privs, update_user_privs,
}

module _ ⦃funk : Funk⦄ ⦃pq : Pq⦄ ⦃db : Sql⦄ (getter : ConnectionGetter) where
  open db use {Conn, World, exec, query, scan_string}
  open pq use {quote_identifier, quote_literal}

  unfoldable pub create_user : Text → Text → Exec World (Unit {0})
  create_user user_name password = do
    conn ← getter none none
    exec conn
        (concat (
          codes "CREATE USER "
          ∷ quote_identifier user_name
          ∷ codes " LOGIN PASSWORD "
          ∷ quote_literal password
          ∷ codes ";"
          ∷ []))
        []

  abbrev pub drop_owned_statement : Text → Text
  drop_owned_statement user_name =
      concat (codes "DROP OWNED BY " ∷ quote_identifier user_name ∷ codes ";" ∷ [])

  -- in each database that the user has access to
  unfoldable pub drop_owned : Text → List Text → Exec World (Unit {0})
  drop_owned user_name [] = pure tt
  drop_owned user_name (database ∷ databases) = do
    db_conn ← getter none (some database)
    exec db_conn (drop_owned_statement user_name) []
    drop_owned user_name databases

  abbrev pub reassign_statement : Text → Text → Text
  reassign_statement user_name to = concat (
      codes "REASSIGN OWNED BY "
      ∷ quote_identifier user_name
      ∷ codes " TO "
      ∷ quote_identifier to
      ∷ codes ";"
      ∷ [])

  -- what the options ask for before the user is dropped
  unfoldable pub prepare_drop : Conn → UserSpec → DropUserOptions → Exec World (Unit {0})
  unfolding drop_owned
  prepare_drop conn spec options =
      if not (is_empty options.reassing_owned_to) && options.drop_owned
      then raise exclusive_options
      else do
        (if options.drop_owned
            then (do
              databases ← get_databases_user_has_access_to conn spec.user_name
              drop_owned spec.user_name databases)
            else pure tt)
        (if is_empty options.reassing_owned_to
            then pure tt
            else exec conn (reassign_statement spec.user_name options.reassing_owned_to) [])
        (if options.revoke_privileges && not (is_empty spec.db_privs)
            then revoke_all_db_privs conn spec.user_name spec.db_privs getter
            else pure tt)

  abbrev pub drop_statement : Text → Text
  drop_statement user_name =
      concat (codes "DROP USER IF EXISTS " ∷ quote_identifier user_name ∷ codes ";" ∷ [])

  abbrev pub prepare : Conn → UserSpec → Option DropUserOptions → Exec World (Unit {0})
  prepare conn spec none = pure tt
  prepare conn spec (some options) = prepare_drop conn spec options

  unfoldable pub drop_user : UserSpec → Exec World (Unit {0})
  unfolding prepare_drop
  drop_user spec = do
    conn ← getter none none
    prepare conn spec spec.drop_user_options
    exec conn (drop_statement spec.user_name) []

  -- `UpdateUserPrivs` on a connection of the server's own user
  unfoldable pub update_privs : Text → Text → List DbPriv → World → Changes World
  update_privs user_name server_privs db_privs w =
      let got = getter none none w in
      elim got.0 [
        | ok conn ↦ update_user_privs conn user_name server_privs db_privs getter got.1
        | err e ↦ (false, err e, got.1)
        | panic ↦ (false, panic, got.1)
      ]

  unfoldable pub execute : Text → Option Text → Exec World (Unit {0})
  execute qry user = do conn ← getter user none; exec conn qry []

  unfoldable pub create_db : Text → Exec World (Unit {0})
  create_db db_name =
      execute (concat (codes "CREATE DATABASE " ∷ quote_identifier db_name ∷ codes ";" ∷ [])) none

  unfoldable pub create_schema : Text → Option Text → Exec World (Unit {0})
  create_schema schema_name creator =
      execute (concat (codes "CREATE SCHEMA " ∷ quote_identifier schema_name ∷ codes ";" ∷ []))
        creator

  -- the flavour of the server decides whether CASCADE is allowed
  abbrev pub cascade_str : Text → Bool → Result Text
  cascade_str flavor cascade =
      if cascade
      then (if text_eq flavor (codes "cockroachdb") then ok (codes "CASCADE") else err unsupported)
      else ok []

  unfoldable pub drop_db : Text → Text → Bool → Exec World (Unit {0})
  drop_db flavor db_name cascade = do
    conn ← getter none none
    cascaded ← lift (cascade_str flavor cascade)
    exec conn
        (concat (
          codes "DROP DATABASE "
          ∷ quote_identifier db_name
          ∷ codes " "
          ∷ cascaded
          ∷ codes ";"
          ∷ []))
        []

  unfoldable pub drop_schema : Text → Text → Option Text → Bool → Exec World (Unit {0})
  drop_schema flavor schema_name user_name cascade = do
    conn ← getter user_name (
        if contains_byte b'.' schema_name
        then some (get_db_name_from_scope_name schema_name)
        else none)
    cascaded ← lift (cascade_str flavor cascade)
    exec conn
        (concat (
          codes "DROP SCHEMA "
          ∷ quote_identifier schema_name
          ∷ codes " "
          ∷ cascaded
          ∷ codes ";"
          ∷ []))
        []

  unfoldable pub get_dbs : Exec World (List Text)
  get_dbs = do
    conn ← getter none none
    rows ←
        query conn
          (codes
            "SELECT d.datname FROM pg_catalog.pg_database d WHERE d.datistemplate = false ORDER BY d.datname;")
          []
    lift (all_rows (λ row. loaded (scan_one scan_string row)) rows)

  unfoldable pub schemas_of : Option Text → Exec World (List Text)
  schemas_of user_name = do conn ← getter user_name none; get_schemas conn

  abbrev both : Result Text → Result Text → Result (Text × Text)
  both (ok name) (ok attributes) = ok (name, attributes)
  both _ _ = err cannot_load

  -- a user and its attributes, in the two columns
  abbrev pub user_row : List db.Value → Result (Text × Text)
  user_row (name ∷ attributes ∷ []) =
      both (loaded (scan_string name)) (loaded (scan_string attributes))
  user_row _ = err cannot_load

  unfoldable pub users_of : List (Text × Text) → List (List db.Value) → Result (List (Text × Text))
  users_of found [] = ok found
  users_of found (row ∷ rows) =
      and_then (user_row row) (λ (name, attributes). users_of (store name attributes found) rows)

  abbrev pub users_query : Text
  users_query = concat (
      codes "SELECT usename AS role_name,\n\t\t\tCASE \n\t\t\tWHEN usesuper AND usecreatedb THEN \n"
      ∷ codes "\t\t\t\tCAST('superuser, create database' AS pg_catalog.text)\n"
      ∷ codes "\t\t\tWHEN usesuper THEN \n"
      ∷ codes "\t\t\t\tCAST('superuser' AS pg_catalog.text)\n"
      ∷ codes "\t\t\tWHEN usecreatedb THEN \n"
      ∷ codes "\t\t\t\tCAST('create database' AS pg_catalog.text)\n"
      ∷ codes "\t\t\tELSE \n"
      ∷ codes "\t\t\t\tCAST('' AS pg_catalog.text)\n"
      ∷ codes "\t\t\tEND role_attributes\n"
      ∷ codes "\t\tFROM pg_catalog.pg_user\n"
      ∷ codes "\t\tORDER BY usename ASC;"
      ∷ [])

  unfoldable pub get_users : Exec World (List (Text × Text))
  unfolding users_of
  get_users = do
    conn ← getter none none
    rows ← wrapping (query conn users_query [])
    lift (users_of [] rows)
