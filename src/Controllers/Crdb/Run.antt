-- ===== src/Controllers/Crdb/Run.antt =====
-- `CrdbBackubJobReco` of controllers/cockroachdbbackupjob_controller.go: one backup that the server
-- runs by itself. The lazy helper of the backup target and the statements of `PostgresConnection` are
-- calls of the environment. A panic is an outcome of an operation here.
pub mod Laws
pub mod Kept
pub mod Started
pub mod Again
use db_operator.Base.{
  Text, codes, text_eq, Error, Result, ok, err, panic, [], Option, none, some, Bool, true, false,
  not, ◌||◌, if◌then◌else◌, ℕ, zero, suc,
}
use db_operator.Base.Exec.{Exec, pure, lift, ◌>>=◌, ◌>>◌}
use db_operator.Base.Int.{ℤ, pos}
use db_operator.Interfaces.Kubernetes.{Object, ControllerUtil}
use db_operator.Shared.Backoff.{CtrlResult, no_requeue, gradual_backoff_retry}
use db_operator.Postgres.Backups.{BucketStorageInfo}
use db_operator.Controllers.Reconcile.{db_operator_finalizer}
use db_operator.Controllers.Crdb.{
  Row, JobStatus, job_map_to_job_status, job_status_eq, is_zero, unix_epoch,
}

-- the resource, with its status
pub record RunCr : Type 0 where
  pub object : Object
  pub status : JobStatus

pub record RunReco (E : Type 0) : Type 0 where
  pub cr : RunCr
  pub ext : E

pub record RunEnvironment (E Conn : Type 0) : Type 0 where
  pub get_cr : Exec E RunCr
  pub get_pg_connection : Exec E Conn
  pub get_db_name : Exec E Text
  pub get_bucket_storage_info : Exec E BucketStorageInfo
  pub create_backup_job : Conn → Text → BucketStorageInfo → Exec E ℤ
  -- whether there is such a job, and its row
  pub get_backup_job_by_id : Conn → ℤ → Exec E (Option Row)
  pub update_status : RunCr → Exec E (Unit {0})
  pub update : Object → Exec E (Unit {0})
  pub now : E → ℤ
  pub since_creation : RunCr → E → ℤ

module _ ⦃util : ControllerUtil⦄ {E Conn : Type 0} (env : RunEnvironment E Conn) where
  abbrev pub outside : {A : Type 0} → Exec E A → Exec (RunReco E) A
  outside call w = ((call w.ext).0, record w { ext = (call w.ext).1 })

  abbrev pub back_off : Exec (RunReco E) CtrlResult
  back_off w = (ok (gradual_backoff_retry (env.since_creation w.cr w.ext)), w)

  abbrev pub backing_off : Result CtrlResult × RunReco E → Result CtrlResult × RunReco E
  backing_off (ok res, w) = (ok res, w)
  backing_off (err e, w) = back_off w
  backing_off (panic, w) = (panic, w)

  -- `EnsureFinalizer`
  abbrev pub ensure_finalizer : Exec (RunReco E) (Unit {0})
  ensure_finalizer w =
      let o = util.add_finalizer w.cr.object db_operator_finalizer in
      if util.contains_finalizer w.cr.object db_operator_finalizer
      then (ok tt, w)
      else outside (env.update o) (record w { cr = record w.cr { object = o } })

  -- the finalizer is set here, since the loop sets none before another run
  abbrev pub store_status : Exec (RunReco E) (Unit {0})
  store_status w = (outside (env.update_status w.cr) >> ensure_finalizer) w

  unfoldable pub set_status : JobStatus → Exec (RunReco E) (Unit {0})
  set_status status w =
      if job_status_eq w.cr.status status
      then (ok tt, w)
      else store_status (record w { cr = record w.cr { status = status } })

  abbrev pub after_look_up : Option Row → Exec (RunReco E) Bool
  unfolding set_status
  after_look_up none = pure false
  after_look_up (some row) = do
    status ← lift (job_map_to_job_status row)
    set_status status
    pure true

  abbrev pub look_up : ℤ → Exec (RunReco E) Bool
  unfolding set_status
  look_up id = do
    conn ← outside env.get_pg_connection
    row ← outside (env.get_backup_job_by_id conn id)
    after_look_up row

  unfoldable pub load_obj : Exec (RunReco E) Bool
  unfolding set_status
  load_obj w = if is_zero w.cr.status.job_id then (ok false, w) else look_up w.cr.status.job_id w

  abbrev put_cr : RunCr → Exec (RunReco E) (Unit {0})
  put_cr cr w = (ok tt, record w { cr = cr })

  unfoldable pub load_cr : Exec (RunReco E) CtrlResult
  load_cr w = backing_off ((do cr ← outside env.get_cr; put_cr cr; pure no_requeue) w)

  abbrev pub backup_ended : RunCr → Bool
  backup_ended cr =
      text_eq cr.status.job_state (codes "failed")
      || text_eq cr.status.job_state (codes "succeeded")

  unfoldable pub ensure_correct : Exec (RunReco E) CtrlResult
  ensure_correct w = if not (backup_ended w.cr) then back_off w else (ok no_requeue, w)

  abbrev pub new_status : ℤ → ℤ → JobStatus
  new_status id now = record {
    job_id = id;
    job_state = [];
    description = [];
    created = now;
    started = unix_epoch;
    finished = unix_epoch;
    failure = [];
  }

  -- the error of the status is dropped
  abbrev pub dropping_error : Result (Unit {0}) × RunReco E → Result (Unit {0}) × RunReco E
  dropping_error (ok _, w) = (ok tt, w)
  dropping_error (err e, w) = (ok tt, w)
  dropping_error (panic, w) = (panic, w)

  -- the number of the backup is noted
  unfoldable pub note_job : ℤ → Exec (RunReco E) (Unit {0})
  unfolding set_status
  note_job id w = dropping_error (set_status (new_status id (env.now w.ext)) w)

  abbrev pub start_backup : Exec (RunReco E) CtrlResult
  unfolding note_job
  start_backup = do
    conn ← outside env.get_pg_connection
    db_name ← outside env.get_db_name
    info ← outside env.get_bucket_storage_info
    id ← outside (env.create_backup_job conn db_name info)
    note_job id
    back_off

  unfoldable pub create_obj : Exec (RunReco E) CtrlResult
  unfolding note_job
  create_obj w =
      if not (is_zero w.cr.status.job_id) then (ok no_requeue, w) else backing_off (start_backup w)

  unfoldable pub remove_obj : Exec (RunReco E) CtrlResult
  remove_obj w = (ok no_requeue, w)

  -- `LoadObj`, and the branch of the loop for a resource that stays
  unfoldable pub load_or_create : Exec (RunReco E) CtrlResult
  unfolding load_obj create_obj ensure_correct
  load_or_create = do exists ← load_obj; if exists then ensure_correct else create_obj

  unfoldable pub run_once : Exec (RunReco E) CtrlResult
  unfolding load_cr load_or_create
  run_once = do res ← load_cr; if res.requeue then pure res else load_or_create

  -- one run after the other
  unfoldable pub runs : ℕ → RunReco E → RunReco E
  unfolding run_once
  runs zero w = w
  runs (suc n) w = runs n (run_once w).1
