-- ===== src/Interfaces/Sql.antt =====
-- A database behind Go's `database/sql`: connections, statements, queries, and the scan of a column.
use db_operator.Base.{Text, Bool, Option, ℕ, List}
use db_operator.Base.Exec.{Exec}

pub record Sql : Type 1 where
  -- `*sql.DB`
  pub Conn : Type 0
  -- everything outside the program
  pub World : Type 0
  -- a column of a row
  pub Value : Type 0
  -- `conn.Query(query, args...)`: the rows that `rows.Next()` gives
  pub query : Conn → Text → List Text → Exec World (List (List Value))
  -- `conn.Exec(query, args...)`
  pub exec : Conn → Text → List Text → Exec World (Unit {0})
  -- `Scan` into `sql.NullString`, `sql.NullInt32` and `sql.NullBool`: `none` is a failed scan and
  -- `some none` is NULL
  pub scan_string : Value → Option (Option Text)
  pub scan_int : Value → Option (Option ℕ)
  pub scan_bool : Value → Option (Option Bool)
  -- `Scan` into `pq.Array`
  pub scan_array : Value → Option (List Text)
  -- a column whose dynamic type is `bool`, in an `interface{}`
  pub as_bool : Value → Option Bool
  -- a query whose columns are named by the server
  pub query_table : Conn → Text → List Text → Exec World (List (List (Text × Value)))
