-- ===== src/Controllers/Jobs/Backup.antt =====
-- `BackupJobReco` of controllers/backupjob_controller.go.
pub mod Found
use db_operator.Base.{
  Text, Error, handled, Result, ok, err, panic, List, [], ◌∷◌, Option, none, some, Bool,
}
use db_operator.Interfaces.Calls.{Reply, got, refused}
use db_operator.Interfaces.Kubernetes.{Object, Cluster}
use db_operator.Shared.Backoff.{no_requeue}
use db_operator.Controllers.Containers.{
  DbActions, S3Storage, build_backup_container, build_upload_container,
}
use db_operator.Controllers.Lazy.{
  LazyEnvironment, LazyTarget, new_lazy_target, get_storage_info_and_actions, cleanup_conn,
}
use db_operator.Controllers.Reconcile.{Answer, Loaded, loaded, failed, Reconcilable}
use db_operator.Controllers.Jobs.{
  Job, JobsEnvironment, Holds, back_off, find_job, after_create, delete_job, with_scripts,
  build_job,
}

-- the resource, with `BackupJobSpec`
pub record BackupJobCr : Type 0 where
  pub object : Object
  pub backup_target : Text
  pub fixed_file_name : Option Text
  pub service_account : Text

-- the rest of the world is in the helper
pub record BackupJobReco (E Conn : Type 0) : Type 0 where
  pub namespace : Text
  pub cr : BackupJobCr
  pub helper : LazyTarget E Conn

module _ {E Conn : Type 0} where
  abbrev pub backup_holds : Holds (BackupJobReco E Conn) E
  backup_holds = record {
    ext = λ w. w.helper.ext;
    set_ext = λ e w. record w { helper = record w.helper { ext = e } };
    object = λ w. w.cr.object;
    namespace = λ w. w.namespace;
  }

module _ {E Conn : Type 0} (env : JobsEnvironment E BackupJobCr Job)
    (lazy : LazyEnvironment E Conn) where
  abbrev pub handle : Loaded × BackupJobReco E Conn → Loaded × BackupJobReco E Conn
  handle (loaded exists, w) = (loaded exists, w)
  handle (failed x, w) = (failed (handled x), w)

  unfoldable pub load_obj : BackupJobReco E Conn → Loaded × BackupJobReco E Conn
  unfolding find_job
  load_obj w = handle (find_job env (λ job. job.name) backup_holds w)

  unfoldable pub backup_job : BackupJobReco E Conn → S3Storage → DbActions → Job
  unfolding build_job build_backup_container build_upload_container
  backup_job w storage actions =
      build_job w.namespace (build_backup_container actions ∷ [])
        (build_upload_container storage w.cr.fixed_file_name) w.cr.object.name w.cr.service_account

  unfoldable pub create_with :
      BackupJobReco E Conn
      → Result (S3Storage × DbActions) × LazyTarget E Conn
      → Answer (BackupJobReco E Conn)
  unfolding backup_job
  create_with w (ok (storage, actions), helper) =
      after_create env (λ job. job.name) backup_holds (record w { helper = helper })
        (env.create (backup_job w storage actions) helper.ext)
  create_with w (_, helper) =
      back_off env (λ job. job.name) backup_holds (record w { helper = helper })

  unfoldable pub create_obj : BackupJobReco E Conn → Answer (BackupJobReco E Conn)
  unfolding build_job build_backup_container build_upload_container get_storage_info_and_actions
  create_obj =
      with_scripts env (λ job. job.name) backup_holds
        (λ w. create_with w (get_storage_info_and_actions lazy w.helper))

  unfoldable pub remove_obj : BackupJobReco E Conn → Answer (BackupJobReco E Conn)
  unfolding delete_job
  remove_obj = delete_job env (λ job. job.name) backup_holds

  abbrev after_get : BackupJobReco E Conn → Reply BackupJobCr × E → Answer (BackupJobReco E Conn)
  after_get w (got cr, e) = (
    no_requeue,
    none,
    record w { cr = cr; helper = new_lazy_target w.namespace cr.backup_target e },
  )
  after_get w (refused x, e) =
      (no_requeue, some x, record w { helper = record w.helper { ext = e } })

  unfoldable pub load_cr : BackupJobReco E Conn → Answer (BackupJobReco E Conn)
  load_cr w = after_get w (env.get_cr w.helper.ext)

  abbrev pub set_object : Object → BackupJobReco E Conn → BackupJobReco E Conn
  set_object o w = record w { cr = record w.cr { object = o } }

  abbrev pub backup_cluster : Cluster (BackupJobReco E Conn)
  backup_cluster = record {
    update = λ o w. (
      (env.update o w.helper.ext).0,
      record w { helper = record w.helper { ext = (env.update o w.helper.ext).1 } },
    );
    since = λ t w. env.since t w.helper.ext;
  }

  abbrev pub backup_reconcilable : Reconcilable (BackupJobReco E Conn)
  backup_reconcilable = record {
    create_obj = create_obj;
    remove_obj = remove_obj;
    load_cr = load_cr;
    load_obj = load_obj;
    ensure_correct = λ w. (no_requeue, none, w);
    get_cr = λ w. w.cr.object;
    set_cr = set_object;
    cleanup_conn = λ w. record w { helper = cleanup_conn lazy w.helper };
  }
