-- ===== src/MySql/Connection.antt =====
-- `MySqlConnection` of dbservers/mysql/connection.go. The cache of connections is part of the world,
-- and is reached through `GetDbConnection`.
pub mod Reported
use db_operator.Base.{
  Text, codes, has_prefix, Result, ok, err, panic, Error, external, wrapped, unsupported,
  cannot_load, List, [], ◌∷◌, ◌++◌, Option, none, some, is_some, Bool, true, false, not,
  if◌then◌else◌,
}
use db_operator.Base.{◌>>=◌ as and_then}
use db_operator.Base.Exec.{Exec, pure, raise, lift, wrapping, ◌>>=◌, ◌>>◌}
use db_operator.Base.Maps.{store}
use db_operator.Interfaces.Sql.{Sql}
use db_operator.Interfaces.Funk.{Funk}
use db_operator.Interfaces.Versions.{Versions}
use db_operator.Postgres.Select.{scan_one, loaded, all_rows}
use db_operator.Postgres.Reconciler.{Changes}
use db_operator.MySql.Users.{update_user_privs}
use db_operator.Api.{DbPriv, DropUserOptions, UserSpec}

module _ ⦃db : Sql⦄ (get_db_connection : Option Text → Option Text → Exec db.World db.Conn) where
  open db use {Conn, World, Value, exec, query, scan_string}

  abbrev pub create_user_statement : Text → Text → Text
  create_user_statement user_name password =
      codes "CREATE USER '" ++ user_name ++ codes "'@'%' IDENTIFIED BY '" ++ password ++ codes "';"

  unfoldable pub create_user : Text → Text → Exec World (Unit {0})
  create_user user_name password = do
    conn ← get_db_connection none none
    exec conn (create_user_statement user_name password) []

  unfoldable pub drop_user : UserSpec → Exec World (Unit {0})
  drop_user spec = if is_some spec.drop_user_options then raise unsupported else (do
    conn ← get_db_connection none none
    exec conn (codes "DROP USER '" ++ spec.user_name ++ codes "'@'%';") [])

  abbrev both : Result Text → Result Text → Result (Text × Text)
  both (ok name) (ok host) = ok (name, host)
  both _ _ = err cannot_load

  -- a user and its host, in the two columns
  abbrev pub user_row : List Value → Result (Text × Text)
  user_row (name ∷ host ∷ []) = both (loaded (scan_string name)) (loaded (scan_string host))
  user_row _ = err cannot_load

  -- a system user is passed over; of several hosts of one user the last stays
  abbrev pub note_user : Text × Text → List (Text × Text) → List (Text × Text)
  note_user (name, host) found =
      if has_prefix name (codes "mysql.") then found else store name host found

  unfoldable pub users_of : List (Text × Text) → List (List Value) → Result (List (Text × Text))
  users_of found [] = ok found
  users_of found (row ∷ rows) =
      and_then (user_row row) (λ user. users_of (note_user user found) rows)

  -- an error of the query is another one without its text
  abbrev unreadable {ℓ} : {A : Type ℓ} → Exec World A → Exec World A
  unreadable m w = (elim (m w).0 [ ok a ↦ ok a | err e ↦ err cannot_load | panic ↦ panic ], (m w).1)

  abbrev pub query_users : Conn → Exec World (List (List Value))
  query_users conn = unreadable (query conn (codes "select user, host from mysql.user;") [])

  abbrev pub read_users : Conn → Exec World (List (Text × Text))
  unfolding users_of
  read_users conn = query_users conn >>= λ rows. lift (users_of [] rows)

  unfoldable pub get_users : Exec World (List (Text × Text))
  unfolding users_of
  get_users = get_db_connection none none >>= read_users

  unfoldable pub execute : Text → Option Text → Exec World (Unit {0})
  execute statement user_name = do conn ← get_db_connection user_name none; exec conn statement []

  unfoldable pub create_db : Text → Exec World (Unit {0})
  unfolding execute
  create_db db_name = execute (codes "CREATE DATABASE `" ++ db_name ++ codes "`;") none

  unfoldable pub drop_db : Text → Bool → Exec World (Unit {0})
  drop_db db_name cascade = do
    conn ← get_db_connection none none
    (if cascade
        then raise unsupported
        else exec conn (codes "DROP DATABASE `" ++ db_name ++ codes "`;") [])

  -- the names; each is there once, since the rows are distinct
  unfoldable pub get_dbs : Exec World (List Text)
  get_dbs = do
    conn ← get_db_connection none none
    rows ← wrapping (
        query conn
          (codes
            "SELECT DISTINCT SCHEMA_NAME AS `database` FROM information_schema.SCHEMATA WHERE SCHEMA_NAME NOT IN ('information_schema', 'performance_schema', 'mysql', 'sys') ORDER BY SCHEMA_NAME;")
          [])
    lift (all_rows (λ row. loaded (scan_one scan_string row)) rows)

  unfoldable pub get_schemas : Option Text → Exec World (List Text)
  get_schemas user_name = raise unsupported

  unfoldable pub create_schema : Text → Option Text → Exec World (Unit {0})
  create_schema schema_name creator = raise unsupported

  unfoldable pub drop_schema : Text → Option Text → Bool → Exec World (Unit {0})
  drop_schema schema_name user_name cascade = raise unsupported

module _ ⦃funk : Funk⦄ ⦃db : Sql⦄ ⦃versions : Versions⦄
    (get_db_connection : Option Text → Option Text → Exec db.World db.Conn) where
  -- `UpdateUserPrivs` on a connection of the server's own user
  unfoldable pub update_privs : Text → Text → List DbPriv → db.World → Changes db.World
  update_privs user_name server_privs db_privs w =
      let got = get_db_connection none none w in
      elim got.0 [
        | ok conn ↦ update_user_privs conn user_name server_privs db_privs got.1
        | err e ↦ (false, err e, got.1)
        | panic ↦ (false, panic, got.1)
      ]
