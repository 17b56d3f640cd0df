-- ===== src/Controllers/Crdb/Schedule.antt =====
-- `CockroachDBBackupCronJobReco` of controllers/cockroachdbbackupcronjob_controller.go. The lazy helper
-- of the backup target and the schedule statements of `PostgresConnection` are calls of the
-- environment. A panic, which ends an operation early, is an outcome of it here.
use db_operator.Base.{
  Text, codes, text_eq, external, Result, ok, err, panic, List, [], ◌∷◌, ◌++◌, is_some, Bool, true,
  false, not, ◌&&◌, if◌then◌else◌, or_panic, ℕ,
}
use db_operator.Base.Exec.{Exec, pure, lift, ◌>>=◌, ◌>>◌}
use db_operator.Base.Int.{ℤ, pos}
use db_operator.Shared.Backoff.{CtrlResult, no_requeue, gradual_backoff_retry}
use db_operator.Postgres.Backups.{BucketStorageInfo}
use db_operator.Controllers.Crdb.{
  Row, ScheduleStatus, schedule_status_eq, schedule_map_to_job_status, is_zero,
}

-- the resource: `CockroachDBBackupCronJobSpec`, its status and its name
pub record ScheduleCr : Type 0 where
  pub name : Text
  pub interval : Text
  pub suspend : Bool
  pub ignore_existing_backups : Bool
  pub drop_on_deletion : Bool
  pub status : ScheduleStatus

pub record ScheduleReco (E : Type 0) : Type 0 where
  pub cr : ScheduleCr
  pub ext : E

pub record ScheduleEnvironment (E Conn : Type 0) : Type 0 where
  pub get_cr : Exec E ScheduleCr
  -- of `LazyBackupTargetHelper`
  pub get_pg_connection : Exec E Conn
  pub get_db_name : Exec E Text
  pub get_bucket_storage_info : Exec E BucketStorageInfo
  -- of `PostgresConnection`
  pub construct_backup_job_statement : BucketStorageInfo → Text → Text → Bool → Exec E Text
  pub create_backup_schedule :
      Conn → Text → BucketStorageInfo → Text → Text → Bool → Bool → Exec E (List Row)
  pub get_backup_schedule_by_label : Conn → Text → Exec E Row
  pub get_backup_schedule_by_id : Conn → ℤ → Exec E Row
  pub drop_backup_schedule : Conn → ℤ → Exec E (Unit {0})
  pub pause_schedule : Conn → ℤ → Exec E (Unit {0})
  pub resume_schedule : Conn → ℤ → Exec E (Unit {0})
  pub unmarshal : Text → Result Row
  pub update_status : ScheduleCr → Exec E (Unit {0})
  -- `time.Sleep`, in seconds
  pub sleep : ℕ → E → E
  pub since_creation : ScheduleCr → E → ℤ
  pub since_deletion : ScheduleCr → E → ℤ

module _ {E Conn : Type 0} (env : ScheduleEnvironment E Conn) where
  -- a call that leaves the controller's fields alone
  abbrev pub outside : {A : Type 0} → Exec E A → Exec (ScheduleReco E) A
  outside call w = ((call w.ext).0, record w { ext = (call w.ext).1 })

  -- `return r.LogAndBackoffCreation(err, r.GetCR())`, wherever there is an error
  abbrev pub backing_off : Result CtrlResult × ScheduleReco E → Result CtrlResult × ScheduleReco E
  backing_off (ok res, w) = (ok res, w)
  backing_off (err e, w) = (ok (gradual_backoff_retry (env.since_creation w.cr w.ext)), w)
  backing_off (panic, w) = (panic, w)

  abbrev pub backing_off_deletion :
      Result CtrlResult × ScheduleReco E → Result CtrlResult × ScheduleReco E
  backing_off_deletion (ok res, w) = (ok res, w)
  backing_off_deletion (err e, w) = (ok (gradual_backoff_retry (env.since_deletion w.cr w.ext)), w)
  backing_off_deletion (panic, w) = (panic, w)

  -- an error leaves the new status in the controller's copy
  unfoldable pub set_status : ScheduleStatus → Exec (ScheduleReco E) (Unit {0})
  set_status status w =
      let cr = record w.cr { status = status } in
      if schedule_status_eq w.cr.status status
      then (ok tt, w)
      else outside (env.update_status cr) (record w { cr = cr })

  unfoldable pub update_status : Conn → ℤ → Exec (ScheduleReco E) (Unit {0})
  unfolding set_status
  update_status conn id = do
    row ← outside (env.get_backup_schedule_by_id conn id)
    status ← lift (schedule_map_to_job_status env.unmarshal row)
    set_status status

  abbrev pub reload : ℤ → Exec (ScheduleReco E) Bool
  unfolding update_status
  reload id = do conn ← outside env.get_pg_connection; update_status conn id; pure true

  unfoldable pub load_obj : Exec (ScheduleReco E) Bool
  unfolding update_status
  load_obj w =
      if is_zero w.cr.status.schedule_id then (ok false, w) else reload w.cr.status.schedule_id w

  abbrev put_cr : ScheduleCr → Exec (ScheduleReco E) (Unit {0})
  put_cr cr w = (ok tt, record w { cr = cr })

  -- a resource that cannot be read is read again later
  unfoldable pub load_cr : Exec (ScheduleReco E) CtrlResult
  load_cr w = backing_off ((do cr ← outside env.get_cr; put_cr cr; pure no_requeue) w)

  abbrev sleep_seconds : ℕ → Exec (ScheduleReco E) (Unit {0})
  sleep_seconds n w = (ok tt, record w { ext = env.sleep n w.ext })

  -- the controller's copy of the resource, as it is now
  abbrev own_cr : Exec (ScheduleReco E) ScheduleCr
  own_cr w = (ok w.cr, w)

  -- the schedule that was made, or the one of that name that was there
  abbrev pub made_schedule : Conn → Text → List Row → Exec (ScheduleReco E) Row
  made_schedule conn name [] = outside (env.get_backup_schedule_by_label conn name)
  made_schedule conn name (row ∷ rows) = pure row

  -- the statement runs the first backup at once
  unfoldable pub create_schedule : ScheduleCr → Exec (ScheduleReco E) CtrlResult
  unfolding update_status
  create_schedule cr = do
    conn ← outside env.get_pg_connection
    db_name ← outside env.get_db_name
    info ← outside env.get_bucket_storage_info
    rows ← outside (
        env.create_backup_schedule conn db_name info cr.name cr.interval true
          cr.ignore_existing_backups)
    row ← made_schedule conn cr.name rows
    status ← lift (schedule_map_to_job_status env.unmarshal row)
    sleep_seconds 3
    update_status conn status.schedule_id
    pure no_requeue

  unfoldable pub create_obj : Exec (ScheduleReco E) CtrlResult
  unfolding create_schedule
  create_obj w =
      if not (is_zero w.cr.status.schedule_id)
      then (ok no_requeue, w)
      else (if w.cr.suspend
          then backing_off (err (external (codes "suspended")), w)
          else backing_off (create_schedule w.cr w))

  -- an error is logged
  abbrev ignored : {A : Type 0} → Result A → Exec (ScheduleReco E) (Unit {0})
  ignored (ok _) w = (ok tt, w)
  ignored (err _) w = (ok tt, w)
  ignored panic w = (panic, w)

  abbrev pub ignoring : {A : Type 0} → Exec (ScheduleReco E) A → Exec (ScheduleReco E) (Unit {0})
  ignoring call w = ignored (call w).0 (call w).1

  abbrev pub forget_id : ScheduleReco E → ScheduleReco E
  forget_id w = record w {
    cr = record w.cr { status = record w.cr.status { schedule_id = pos 0 } };
  }

  abbrev forgetting : Exec (ScheduleReco E) (Unit {0})
  forgetting w = (ok tt, forget_id w)

  -- the schedule is dropped, and made again if it may be; what `CreateObj` answers is not read
  unfoldable pub replace_schedule : Conn → Exec (ScheduleReco E) (Unit {0})
  unfolding create_obj
  replace_schedule conn = do
    cr ← own_cr
    outside (env.drop_backup_schedule conn cr.status.schedule_id)
    forgetting
    create_obj
    pure tt

  -- whether a schedule runs or is paused
  abbrev pub settle_state : Conn → Bool → ScheduleStatus → ℤ → Exec (ScheduleReco E) (Unit {0})
  settle_state conn suspend status id =
      if suspend
      then (if not (text_eq status.schedule_state (codes "PAUSED"))
          then ignoring (outside (env.pause_schedule conn id))
          else pure tt)
      else (if not (text_eq status.schedule_state (codes "ACTIVE")) && not (is_some status.state)
          then ignoring (outside (env.resume_schedule conn id))
          else pure tt)

  unfoldable pub check_state : Conn → Exec (ScheduleReco E) CtrlResult
  check_state conn = do
    cr ← own_cr
    row ← outside (env.get_backup_schedule_by_id conn cr.status.schedule_id)
    status ← lift (schedule_map_to_job_status env.unmarshal row)
    settle_state conn cr.suspend status cr.status.schedule_id
    pure no_requeue

  -- `statement != (*Command + ";")`
  abbrev pub is_stale : Text → Text → Bool
  is_stale statement command = not (text_eq statement (command ++ codes ";"))

  unfoldable pub replace_if_stale : Conn → Text → Text → Exec (ScheduleReco E) (Unit {0})
  unfolding replace_schedule
  replace_if_stale conn statement command =
      if is_stale statement command then replace_schedule conn else pure tt

  unfoldable pub correct : Exec (ScheduleReco E) CtrlResult
  unfolding replace_if_stale check_state
  correct = do
    conn ← outside env.get_pg_connection
    info ← outside env.get_bucket_storage_info
    db_name ← outside env.get_db_name
    statement ← outside (env.construct_backup_job_statement info db_name [] true)
    cr ← own_cr
    command ← lift (or_panic cr.status.command)
    replace_if_stale conn statement command
    check_state conn

  unfoldable pub ensure_correct : Exec (ScheduleReco E) CtrlResult
  unfolding correct
  ensure_correct w = backing_off (correct w)

  abbrev drop_schedule : Exec (ScheduleReco E) CtrlResult
  drop_schedule = do
    cr ← own_cr
    conn ← outside env.get_pg_connection
    outside (env.drop_backup_schedule conn cr.status.schedule_id)
    pure no_requeue

  unfoldable pub remove_obj : Exec (ScheduleReco E) CtrlResult
  remove_obj w =
      if not (is_zero w.cr.status.schedule_id) && w.cr.drop_on_deletion
      then backing_off_deletion (drop_schedule w)
      else (ok no_requeue, w)
