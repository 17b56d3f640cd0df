-- ===== src/Postgres/Constructors/Tables.antt =====
-- Which tables `getTablePrivileges` can read.
use db_operator.Base.{Text, codes, contains_byte, has_suffix, ok, panic, List, true, false, ◌≡◌}
use db_operator.Interfaces.Funk.{Funk}
use db_operator.Interfaces.Pq.{Pq}
use db_operator.Interfaces.Sql.{Sql}
use db_operator.Api.{DbPriv}
use db_operator.Postgres.Version.{PostgresVersion}
use db_operator.Postgres.Reconciler.{PrivsReconciler, reconcile_privs}
use db_operator.Postgres.Statements.{grant_table_privileges, revoke_table_privileges}
use db_operator.Postgres.Found.{get_table_privileges}
use db_operator.Postgres.Constructors.{new_table_privs_reconciler, plain}

module _ ⦃funk : Funk⦄ ⦃pq : Pq⦄ ⦃db : Sql⦄ where
  dotted_table_panics :
      (conn : db.Conn) (user table : Text) (w : db.World)
      → contains_byte b'.' table ≡ true
      → get_table_privileges conn user table w ≡ (panic, w)
  unfolding get_table_privileges
  dotted_table_panics conn user table w dotted = rw dotted

  -- For a table whose name has a dot, and does not end in ".ALL", a reconciler is built, and each
  -- reconciliation with it ends in a panic before any statement is executed.
  pub reconcile_dotted_table :
      (p : DbPriv) (conn : db.Conn) (user name : Text) (privs : List Text) (v : PostgresVersion)
      (w : db.World)
      → has_suffix name (codes ".ALL") ≡ false
      → contains_byte b'.' name ≡ true
      → (r : PrivsReconciler db) × (new_table_privs_reconciler p conn user name privs v ≡ ok r)
        × (reconcile_privs r w ≡ (false, panic, w))
  unfolding new_table_privs_reconciler reconcile_privs
  reconcile_dotted_table p conn user name privs v w one dotted = (
    plain p conn user name privs grant_table_privileges revoke_table_privileges
        get_table_privileges,
    rw one,
    rw (dotted_table_panics conn user name w dotted),
  )
