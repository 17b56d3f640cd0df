-- ===== src/Controllers/Jobs/Scheduled/Backup.antt =====
-- `BackupCronJobReco` of controllers/backupcronjob_controller.go.
use db_operator.Base.{
  if◌then◌else◌, false, true, Text, Result, ok, List, [], ◌∷◌, Option, none, some, Bool,
}
use db_operator.Interfaces.Calls.{Reply, got, refused}
use db_operator.Interfaces.Kubernetes.{Object, Cluster}
use db_operator.Shared.Backoff.{no_requeue}
use db_operator.Controllers.Containers.{
  DbActions, S3Storage, build_backup_container, build_upload_container,
}
use db_operator.Controllers.Lazy.{
  LazyEnvironment, LazyTarget, new_lazy_target, get_storage_info_and_actions, cleanup_conn,
}
use db_operator.Controllers.Reconcile.{Answer, Loaded, loaded, failed, Reconcilable}
use db_operator.Controllers.Jobs.Scheduled.{CronJobStatus, cron_status_eq}
use db_operator.Controllers.Jobs.{
  CronJob, JobsEnvironment, Holds, back_off, find_job, after_create, controlled_by, with_scripts,
  build_cron_job,
}

-- the resource, with `BackupJobSpec`
pub record BackupCronJobCr : Type 0 where
  pub object : Object
  pub backup_target : Text
  pub fixed_file_name : Option Text
  pub interval : Text
  pub suspend : Bool
  pub service_account : Text
  pub status : CronJobStatus

-- the rest of the world is in the helper
pub record BackupCronJobReco (E Conn : Type 0) : Type 0 where
  pub namespace : Text
  pub cr : BackupCronJobCr
  pub helper : LazyTarget E Conn

module _ {E Conn : Type 0} where
  abbrev pub backup_holds : Holds (BackupCronJobReco E Conn) E
  backup_holds = record {
    ext = λ w. w.helper.ext;
    set_ext = λ e w. record w { helper = record w.helper { ext = e } };
    object = λ w. w.cr.object;
    namespace = λ w. w.namespace;
  }

module _ {E Conn : Type 0} (env : JobsEnvironment E BackupCronJobCr CronJob)
    (lazy : LazyEnvironment E Conn) where
  -- an error of the update is dropped
  unfoldable pub update_status : Bool → BackupCronJobReco E Conn → BackupCronJobReco E Conn
  update_status exists w =
      let status : CronJobStatus = record { exists = exists; cronjob_name = w.cr.object.name } in
      let cr = record w.cr { status = status } in
      if cron_status_eq w.cr.status status
      then w
      else backup_holds.set_ext (env.update_status cr (backup_holds.ext w)) (record w { cr = cr })

  unfoldable pub note_found : Loaded × BackupCronJobReco E Conn → Loaded × BackupCronJobReco E Conn
  unfolding update_status
  note_found (loaded exists, w) = (loaded exists, update_status exists w)
  note_found (failed x, w) = (failed x, w)

  -- no status is stored when the objects cannot be found
  unfoldable pub after_list :
      Reply (List CronJob) → Loaded × BackupCronJobReco E Conn → Loaded × BackupCronJobReco E Conn
  unfolding note_found
  after_list (got jobs) found = note_found found
  after_list (refused x) found = found

  unfoldable pub load_obj : BackupCronJobReco E Conn → Loaded × BackupCronJobReco E Conn
  unfolding find_job after_list
  load_obj w =
      after_list (env.list w.namespace controlled_by (backup_holds.ext w)).0
        (find_job env (λ job. job.name) backup_holds w)

  unfoldable pub note_created :
      Bool → Answer (BackupCronJobReco E Conn) → Answer (BackupCronJobReco E Conn)
  unfolding update_status
  note_created exists (res, e, w) = (res, e, update_status exists w)

  unfoldable pub backup_cron_job : BackupCronJobReco E Conn → S3Storage → DbActions → CronJob
  unfolding build_cron_job build_backup_container build_upload_container
  backup_cron_job w storage actions =
      build_cron_job w.namespace (build_backup_container actions ∷ [])
        (build_upload_container storage w.cr.fixed_file_name) w.cr.object.name w.cr.interval
        w.cr.suspend w.cr.service_account

  unfoldable pub create_with :
      BackupCronJobReco E Conn
      → Result (S3Storage × DbActions) × LazyTarget E Conn
      → Answer (BackupCronJobReco E Conn)
  unfolding backup_cron_job update_status
  create_with w (ok (storage, actions), helper) = note_created true (
      after_create env (λ job. job.name) backup_holds (record w { helper = helper })
        (env.create (backup_cron_job w storage actions) helper.ext))
  create_with w (_, helper) =
      back_off env (λ job. job.name) backup_holds (record w { helper = helper })

  unfoldable pub create_obj : BackupCronJobReco E Conn → Answer (BackupCronJobReco E Conn)
  unfolding build_cron_job build_backup_container build_upload_container
      get_storage_info_and_actions update_status
  create_obj =
      with_scripts env (λ job. job.name) backup_holds
        (λ w. create_with w (get_storage_info_and_actions lazy w.helper))

  -- the error is left to the loop
  unfoldable pub remove_obj : BackupCronJobReco E Conn → Answer (BackupCronJobReco E Conn)
  unfolding update_status
  remove_obj w =
      let (x, e) = env.delete w.namespace w.cr.object.name w.helper.ext in
      (no_requeue, x, update_status false (backup_holds.set_ext e w))

  abbrev after_get :
      BackupCronJobReco E Conn → Reply BackupCronJobCr × E → Answer (BackupCronJobReco E Conn)
  after_get w (got cr, e) = (
    no_requeue,
    none,
    record w { cr = cr; helper = new_lazy_target w.namespace cr.backup_target e },
  )
  after_get w (refused x, e) =
      (no_requeue, some x, record w { helper = record w.helper { ext = e } })

  unfoldable pub load_cr : BackupCronJobReco E Conn → Answer (BackupCronJobReco E Conn)
  load_cr w = after_get w (env.get_cr w.helper.ext)

  abbrev pub set_object : Object → BackupCronJobReco E Conn → BackupCronJobReco E Conn
  set_object o w = record w { cr = record w.cr { object = o } }

  abbrev pub backup_cluster : Cluster (BackupCronJobReco E Conn)
  backup_cluster = record {
    update = λ o w. (
      (env.update o w.helper.ext).0,
      record w { helper = record w.helper { ext = (env.update o w.helper.ext).1 } },
    );
    since = λ t w. env.since t w.helper.ext;
  }

  abbrev pub backup_reconcilable : Reconcilable (BackupCronJobReco E Conn)
  backup_reconcilable = record {
    create_obj = create_obj;
    remove_obj = remove_obj;
    load_cr = load_cr;
    load_obj = load_obj;
    ensure_correct = λ w. (no_requeue, none, w);
    get_cr = λ w. w.cr.object;
    set_cr = set_object;
    cleanup_conn = λ w. record w { helper = cleanup_conn lazy w.helper };
  }
