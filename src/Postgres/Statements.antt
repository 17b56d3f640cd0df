-- ===== src/Postgres/Statements.antt =====
-- The GRANT and REVOKE statements of database_privs.go, schema_privs.go, table_privs.go and
-- default_table_privs.go in dbservers/postgres. A statement is the concatenation of its pieces.
use db_operator.Base.{Text, codes, join, text_eq, List, [], ◌∷◌, ◌++◌, if◌then◌else◌}
use db_operator.Base.Exec.{Exec}
use db_operator.Interfaces.Pq.{Pq}
use db_operator.Interfaces.Sql.{Sql}

-- `fmt.Sprintf`, with its format cut at the verbs
abbrev pub concat : List Text → Text
concat [] = []
concat (t ∷ ts) = t ++ concat ts

abbrev pub privs_str : List Text → Text
privs_str privs = join privs (codes ", ")

abbrev pub public_user : Text
public_user = codes "PUBLIC"

module _ ⦃pq : Pq⦄ where
  open pq use {quote_identifier}

  unfoldable pub grant_database_statement : Text → Text → List Text → Text
  grant_database_statement user db privs =
      let escaped_db = quote_identifier db in
      if text_eq user public_user
      then concat (
          codes "GRANT "
          ∷ privs_str privs
          ∷ codes " ON DATABASE "
          ∷ escaped_db
          ∷ codes " TO PUBLIC"
          ∷ [])
      else concat (
          codes "GRANT "
          ∷ privs_str privs
          ∷ codes " ON DATABASE "
          ∷ escaped_db
          ∷ codes " TO "
          ∷ quote_identifier user
          ∷ [])

  unfoldable pub revoke_database_statement : Text → Text → List Text → Text
  revoke_database_statement user db privs =
      let escaped_db = quote_identifier db in
      if text_eq user public_user
      then concat (
          codes "REVOKE "
          ∷ privs_str privs
          ∷ codes " ON DATABASE "
          ∷ escaped_db
          ∷ codes " FROM PUBLIC"
          ∷ [])
      else concat (
          codes "REVOKE "
          ∷ privs_str privs
          ∷ codes " ON DATABASE "
          ∷ escaped_db
          ∷ codes " FROM "
          ∷ quote_identifier user
          ∷ [])

  -- the statements whose object and user are both quoted
  abbrev pub on_object : Text → List Text → Text → Text → Text → Text → Text → Text
  on_object verb privs on object to user ending = concat (
      verb
      ∷ privs_str privs
      ∷ on
      ∷ quote_identifier object
      ∷ to
      ∷ quote_identifier user
      ∷ ending
      ∷ [])

  unfoldable pub grant_schema_statement : Text → Text → List Text → Text
  grant_schema_statement user schema_name privs =
      on_object (codes "GRANT ") privs (codes " on SCHEMA ") schema_name (codes " to ") user
        (codes ";")

  unfoldable pub revoke_schema_statement : Text → Text → List Text → Text
  revoke_schema_statement user schema_name privs =
      on_object (codes "REVOKE ") privs (codes " on SCHEMA ") schema_name (codes " FROM ") user
        (codes ";")

  unfoldable pub grant_table_statement : Text → Text → List Text → Text
  grant_table_statement user table privs =
      on_object (codes "GRANT ") privs (codes " ON TABLE ") table (codes " TO ") user []

  unfoldable pub revoke_table_statement : Text → Text → List Text → Text
  revoke_table_statement user table privs =
      on_object (codes "REVOKE ") privs (codes " ON TABLE ") table (codes " FROM ") user []

  unfoldable pub grant_all_tables_statement : Text → Text → List Text → Text
  grant_all_tables_statement user schema privs =
      on_object (codes "GRANT ") privs (codes " ON ALL TABLES IN SCHEMA ") schema (codes " TO ")
        user []

  unfoldable pub revoke_all_tables_statement : Text → Text → List Text → Text
  revoke_all_tables_statement user schema privs =
      on_object (codes "REVOKE ") privs (codes " ON ALL TABLES IN SCHEMA ") schema (codes " FROM ")
        user []

  -- here the role stands before the privileges
  abbrev default_privileges : Text → Text → List Text → Text → Text → Text
  default_privileges role verb privs to user = concat (
      codes "ALTER DEFAULT PRIVILEGES FOR ROLE "
      ∷ quote_identifier role
      ∷ verb
      ∷ privs_str privs
      ∷ to
      ∷ quote_identifier user
      ∷ codes ";"
      ∷ [])

  unfoldable pub grant_default_table_statement : Text → Text → List Text → Text
  grant_default_table_statement user role privs =
      default_privileges role (codes " GRANT ") privs (codes " ON TABLES TO ") user

  unfoldable pub revoke_default_table_statement : Text → Text → List Text → Text
  revoke_default_table_statement user role privs =
      default_privileges role (codes " REVOKE ") privs (codes " ON TABLES FROM ") user

module _ ⦃pq : Pq⦄ ⦃db : Sql⦄ where
  open db use {Conn, World, exec}

  -- the type `privsAdjuster`
  abbrev pub PrivsAdjuster : Type 0
  PrivsAdjuster = Conn → Text → Text → List Text → Exec World (Unit {0})

  unfoldable pub grant_database_privileges : PrivsAdjuster
  grant_database_privileges conn user name privs =
      exec conn (grant_database_statement user name privs) []

  unfoldable pub revoke_database_privileges : PrivsAdjuster
  revoke_database_privileges conn user name privs =
      exec conn (revoke_database_statement user name privs) []

  unfoldable pub grant_schema_privileges : PrivsAdjuster
  grant_schema_privileges conn user schema_name privs =
      exec conn (grant_schema_statement user schema_name privs) []

  unfoldable pub revoke_schema_privileges : PrivsAdjuster
  revoke_schema_privileges conn user schema_name privs =
      exec conn (revoke_schema_statement user schema_name privs) []

  unfoldable pub grant_table_privileges : PrivsAdjuster
  grant_table_privileges conn user table privs =
      exec conn (grant_table_statement user table privs) []

  unfoldable pub revoke_table_privileges : PrivsAdjuster
  revoke_table_privileges conn user table privs =
      exec conn (revoke_table_statement user table privs) []

  unfoldable pub grant_privileges_on_all_tables : PrivsAdjuster
  grant_privileges_on_all_tables conn user schema privs =
      exec conn (grant_all_tables_statement user schema privs) []

  unfoldable pub revoke_privileges_on_all_tables : PrivsAdjuster
  revoke_privileges_on_all_tables conn user schema privs =
      exec conn (revoke_all_tables_statement user schema privs) []

  unfoldable pub grant_default_table_privileges : PrivsAdjuster
  grant_default_table_privileges conn user role privs =
      exec conn (grant_default_table_statement user role privs) []

  unfoldable pub revoke_default_table_privileges : PrivsAdjuster
  revoke_default_table_privileges conn user role privs =
      exec conn (revoke_default_table_statement user role privs) []
