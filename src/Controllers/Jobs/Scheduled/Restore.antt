-- ===== src/Controllers/Jobs/Scheduled/Restore.antt =====
-- `RestoreCronJobReco` of controllers/restorecronjob_controller.go.
use db_operator.Base.{Text, Result, ok, [], ◌∷◌, Option, none, Bool}
use db_operator.Interfaces.Calls.{Reply, got, refused}
use db_operator.Interfaces.Kubernetes.{Object, Cluster}
use db_operator.Shared.Backoff.{no_requeue}
use db_operator.Controllers.Containers.{
  DbActions, S3Storage, build_restore_container, build_download_container,
}
use db_operator.Controllers.Lazy.{
  LazyEnvironment, LazyTarget, new_lazy_target, get_storage_info_and_actions, cleanup_conn,
}
use db_operator.Controllers.Reconcile.{Answer, Loaded, Reconcilable}
use db_operator.Controllers.Jobs.{
  with_scripts, CronJob, JobsEnvironment, Holds, back_off, find_job, after_create, delete_job,
  build_cron_job,
}

-- the resource, with `RestoreCronJobSpec`
pub record RestoreCronJobCr : Type 0 where
  pub object : Object
  pub restore_target : Text
  pub fixed_file_name : Option Text
  pub interval : Text
  pub suspend : Bool
  pub service_account : Text

-- the rest of the world is in the helper
pub record RestoreCronJobReco (E Conn : Type 0) : Type 0 where
  pub namespace : Text
  pub cr : RestoreCronJobCr
  pub helper : LazyTarget E Conn

module _ {E Conn : Type 0} where
  abbrev pub with_ext : E → RestoreCronJobReco E Conn → RestoreCronJobReco E Conn
  with_ext e w = record w { helper = record w.helper { ext = e } }

  abbrev pub restore_holds : Holds (RestoreCronJobReco E Conn) E
  restore_holds = record {
    ext = λ w. w.helper.ext;
    set_ext = with_ext;
    object = λ w. w.cr.object;
    namespace = λ w. w.namespace;
  }

module _ {E Conn : Type 0} (env : JobsEnvironment E RestoreCronJobCr CronJob)
    (lazy : LazyEnvironment E Conn) where
  unfoldable pub load_obj : RestoreCronJobReco E Conn → Loaded × RestoreCronJobReco E Conn
  unfolding find_job
  load_obj = find_job env (λ job. job.name) restore_holds

  unfoldable pub restore_cron_job : RestoreCronJobReco E Conn → S3Storage → DbActions → CronJob
  unfolding build_cron_job build_restore_container build_download_container
  restore_cron_job w storage actions =
      build_cron_job w.namespace (build_download_container storage w.cr.fixed_file_name ∷ [])
        (build_restore_container actions) w.cr.object.name w.cr.interval w.cr.suspend
        w.cr.service_account

  unfoldable pub create_with :
      RestoreCronJobReco E Conn
      → Result (S3Storage × DbActions) × LazyTarget E Conn
      → Answer (RestoreCronJobReco E Conn)
  unfolding restore_cron_job
  create_with w (ok (storage, actions), helper) =
      after_create env (λ job. job.name) restore_holds (record w { helper = helper })
        (env.create (restore_cron_job w storage actions) helper.ext)
  create_with w (_, helper) =
      back_off env (λ job. job.name) restore_holds (record w { helper = helper })

  unfoldable pub create_obj : RestoreCronJobReco E Conn → Answer (RestoreCronJobReco E Conn)
  unfolding build_cron_job build_restore_container build_download_container
      get_storage_info_and_actions
  create_obj =
      with_scripts env (λ job. job.name) restore_holds
        (λ w. create_with w (get_storage_info_and_actions lazy w.helper))

  unfoldable pub remove_obj : RestoreCronJobReco E Conn → Answer (RestoreCronJobReco E Conn)
  unfolding delete_job
  remove_obj = delete_job env (λ job. job.name) restore_holds

  abbrev after_get :
      RestoreCronJobReco E Conn → Reply RestoreCronJobCr × E → Answer (RestoreCronJobReco E Conn)
  after_get w (got cr, e) = (
    no_requeue,
    none,
    record w { cr = cr; helper = new_lazy_target w.namespace cr.restore_target e },
  )
  after_get w (refused x, e) = back_off env (λ job. job.name) restore_holds (with_ext e w)

  unfoldable pub load_cr : RestoreCronJobReco E Conn → Answer (RestoreCronJobReco E Conn)
  load_cr w = after_get w (env.get_cr w.helper.ext)

  abbrev pub restore_cluster : Cluster (RestoreCronJobReco E Conn)
  restore_cluster = record {
    update = λ o w. ((env.update o w.helper.ext).0, with_ext (env.update o w.helper.ext).1 w);
    since = λ t w. env.since t w.helper.ext;
  }

  -- `EnsureCorrect` does nothing
  abbrev pub restore_reconcilable : Reconcilable (RestoreCronJobReco E Conn)
  restore_reconcilable = record {
    create_obj = create_obj;
    remove_obj = remove_obj;
    load_cr = load_cr;
    load_obj = load_obj;
    ensure_correct = λ w. (no_requeue, none, w);
    get_cr = λ w. w.cr.object;
    set_cr = λ o w. record w { cr = record w.cr { object = o } };
    cleanup_conn = λ w. record w { helper = cleanup_conn lazy w.helper };
  }
