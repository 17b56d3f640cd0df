-- ===== src/Controllers/Crdb.antt =====
-- Rows of CockroachDB, and the statuses that are read off them: `jobMapToJobStatus` of
-- controllers/cockroachdbbackupjob_controller.go and `scheduleMapToJobStatus` of
-- controllers/cockroachdbbackupcronjob_controller.go. Times are whole seconds since 1970. JSON is
-- decoded by a parameter.
pub mod Schedule
pub mod Run
use db_operator.Base.{
  Text, codes, text_eq, Result, ok, err, panic, List, Option, none, some, Bool, true, false, ◌&&◌,
  ℕ, ◌==◌, ◌>>=◌, if◌then◌else◌,
}
use db_operator.Base.Int.{ℤ, pos, negsuc}
use db_operator.Base.Maps.{lookup}

-- an `interface{}` that a driver or a decoder gives
pub data Cell : Type 0 where
  null : Cell
  text : Text → Cell
  int : ℤ → Cell
  time : ℤ → Cell
  bytes : Text → Cell

abbrev pub Row : Type 0
Row = List (Text × Cell)

-- type assertions, which panic at another type
abbrev pub as_text : Cell → Result Text
as_text (text s) = ok s
as_text _ = panic

abbrev pub as_int : Cell → Result ℤ
as_int (int n) = ok n
as_int _ = panic

abbrev pub as_time : Cell → Result ℤ
as_time (time t) = ok t
as_time _ = panic

abbrev pub as_bytes : Cell → Result Text
as_bytes (bytes s) = ok s
as_bytes _ = panic

-- `row[key].(T)`
abbrev pub required {ℓ} : {A : Type ℓ} → (Cell → Result A) → Option Cell → Result A
required assertion none = panic
required assertion (some cell) = assertion cell

-- `if found && value != nil`, with a default
abbrev pub present_or {ℓ} : {A : Type ℓ} → A → (Cell → Result A) → Option Cell → Result A
present_or default assertion none = ok default
present_or default assertion (some null) = ok default
present_or default assertion (some cell) = assertion cell

-- the same for a pointer
abbrev pub optional {ℓ} : {A : Type ℓ} → (Cell → Result A) → Option Cell → Result (Option A)
optional assertion none = ok none
optional assertion (some null) = ok none
optional assertion (some cell) = assertion cell >>= λ a. ok (some a)

abbrev pub int_eq : ℤ → ℤ → Bool
int_eq (pos a) (pos b) = a == b
int_eq (negsuc a) (negsuc b) = a == b
int_eq _ _ = false

abbrev pub is_zero : ℤ → Bool
is_zero n = int_eq n (pos 0)

abbrev pub option_text_eq : Option Text → Option Text → Bool
option_text_eq none none = true
option_text_eq (some s) (some t) = text_eq s t
option_text_eq _ _ = false

-- `metav1.Unix(0, 0)` and `metav1.Time{}`
abbrev pub unix_epoch : ℤ
unix_epoch = pos 0

abbrev pub zero_time : ℤ
zero_time = negsuc 62135596799

-- `CockroachDBBackupJobStatus`; the field `Error` is `failure` here
pub record JobStatus : Type 0 where
  pub job_id : ℤ
  pub job_state : Text
  pub description : Text
  pub created : ℤ
  pub started : ℤ
  pub finished : ℤ
  pub failure : Text

unfoldable pub job_map_to_job_status : Row → Result JobStatus
job_map_to_job_status row = do
  created ← present_or unix_epoch as_time (lookup (codes "created") row)
  started ← present_or unix_epoch as_time (lookup (codes "started") row)
  finished ← present_or unix_epoch as_time (lookup (codes "finished") row)
  id ← required as_int (lookup (codes "job_id") row)
  state ← required as_text (lookup (codes "status") row)
  description ← required as_text (lookup (codes "description") row)
  failure ← required as_text (lookup (codes "error") row)
  ok (record {
    job_id = id;
    job_state = state;
    description = description;
    created = created;
    started = started;
    finished = finished;
    failure = failure;
  })

-- `reflect.DeepEqual`
abbrev pub job_status_eq : JobStatus → JobStatus → Bool
job_status_eq a b =
    int_eq a.job_id b.job_id
    && (text_eq a.job_state b.job_state
        && (text_eq a.description b.description
            && (int_eq a.created b.created
                && (int_eq a.started b.started
                    && (int_eq a.finished b.finished && text_eq a.failure b.failure)))))

-- `CockroachDBBackupCronJobStatus`
pub record ScheduleStatus : Type 0 where
  pub schedule_id : ℤ
  pub schedule_state : Text
  pub state : Option Text
  pub command : Option Text
  pub created : ℤ

abbrev pub schedule_status_eq : ScheduleStatus → ScheduleStatus → Bool
schedule_status_eq a b =
    int_eq a.schedule_id b.schedule_id
    && (text_eq a.schedule_state b.schedule_state
        && (option_text_eq a.state b.state
            && (option_text_eq a.command b.command && int_eq a.created b.created)))

module _ (unmarshal : Text → Result Row) where
  -- the column is there, so it must hold bytes
  abbrev pub read_command : Option Cell → Result (Option Text)
  read_command none = ok none
  read_command (some cell) = do
    encoded ← as_bytes cell
    decoded ← unmarshal encoded
    elim (lookup (codes "backup_statement") decoded) [
      | none ↦ ok none
      | some statement ↦ as_text statement >>= λ s. ok (some s)
    ]

  unfoldable pub schedule_map_to_job_status : Row → Result ScheduleStatus
  schedule_map_to_job_status row = do
    created ← present_or zero_time as_time (lookup (codes "created") row)
    command ← read_command (lookup (codes "command") row)
    state ← optional as_text (lookup (codes "state") row)
    id ← present_or (pos 0) as_int (lookup (codes "id") row)
    schedule_state ← present_or (codes "") as_text (lookup (codes "schedule_status") row)
    ok (record {
      schedule_id = id;
      schedule_state = schedule_state;
      state = state;
      command = command;
      created = created;
    })
