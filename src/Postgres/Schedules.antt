-- ===== src/Postgres/Schedules.antt =====
-- The statements of dbservers/postgres/connection.go on backup jobs and schedules with a number. A
-- number goes to the driver as the text of its digits.
use db_operator.Base.{
  Text, codes, Result, ok, err, no_rows, List, [], ◌∷◌, ◌++◌, Option, none, some,
}
use db_operator.Base.Exec.{Exec, lift, ◌>>=◌}
use db_operator.Base.Int.{ℤ, itoa}
use db_operator.Interfaces.Funk.{Funk}
use db_operator.Interfaces.Pq.{Pq}
use db_operator.Interfaces.Sql.{Sql}
use db_operator.Postgres.Constructors.{ConnectionGetter}

module _ ⦃funk : Funk⦄ ⦃pq : Pq⦄ ⦃db : Sql⦄ (getter : ConnectionGetter) where
  open db use {World, Value, exec, query_table}

  abbrev pub NamedRow : Type 0
  NamedRow = List (Text × Value)

  unfoldable pub get_backup_jobs : Exec World (List NamedRow)
  get_backup_jobs = do
    conn ← getter none none
    query_table conn
        (codes
          "WITH x as (SHOW JOBS) SELECT * FROM x WHERE job_type = 'BACKUP' ORDER BY created DESC LIMIT 100;")
        []

  abbrev first_row : List NamedRow → Option NamedRow
  first_row [] = none
  first_row (row ∷ rows) = some row

  -- whether there is such a job, and its row
  unfoldable pub get_backup_job_by_id : ℤ → Exec World (Option NamedRow)
  get_backup_job_by_id job_id = do
    conn ← getter none none
    rows ←
        query_table conn
          (codes "WITH x as (SHOW JOBS) SELECT * FROM x WHERE job_type = 'BACKUP' AND job_id=$1;")
          (itoa job_id ∷ [])
    lift (ok (first_row rows))

  abbrev found_row : Option NamedRow → Result NamedRow
  found_row none = err no_rows
  found_row (some row) = ok row

  unfoldable pub get_backup_schedule_by_id : ℤ → Exec World NamedRow
  get_backup_schedule_by_id schedule_id = do
    conn ← getter none none
    rows ←
        query_table conn (codes "WITH x as (SHOW SCHEDULES) SELECT * FROM x WHERE id=$1;")
          (itoa schedule_id ∷ [])
    lift (found_row (first_row rows))

  abbrev on_schedule : Text → ℤ → Exec World (Unit {0})
  on_schedule statement schedule_id = do
    conn ← getter none none
    exec conn (statement ++ itoa schedule_id) []

  unfoldable pub resume_schedule : ℤ → Exec World (Unit {0})
  resume_schedule schedule_id = on_schedule (codes "RESUME SCHEDULE ") schedule_id

  unfoldable pub pause_schedule : ℤ → Exec World (Unit {0})
  pause_schedule schedule_id = on_schedule (codes "PAUSE SCHEDULE ") schedule_id

  unfoldable pub drop_backup_schedule : ℤ → Exec World (Unit {0})
  drop_backup_schedule schedule_id = on_schedule (codes "DROP SCHEDULE ") schedule_id
