-- ===== src/Controllers/Jobs/Restore.antt =====
-- `RestoreJobReco` of controllers/restorejob_controller.go.
use db_operator.Base.{Text, Error, Result, ok, [], ◌∷◌, Option, none, some}
use db_operator.Interfaces.Calls.{Reply, got, refused}
use db_operator.Interfaces.Kubernetes.{Object, Cluster}
use db_operator.Shared.Backoff.{no_requeue}
use db_operator.Controllers.Containers.{
  DbActions, S3Storage, build_restore_container, build_download_container,
}
use db_operator.Controllers.Lazy.{
  LazyEnvironment, LazyTarget, new_lazy_target, get_storage_info_and_actions,
}
use db_operator.Controllers.Reconcile.{Answer, Loaded, Reconcilable}
use db_operator.Controllers.Jobs.{
  Job, JobsEnvironment, Holds, back_off, find_job, after_create, delete_job, ensure_scripts,
  build_job,
}

-- the resource, with `RestoreJobSpec`
pub record RestoreJobCr : Type 0 where
  pub object : Object
  pub restore_target : Text
  pub fixed_file_name : Option Text
  pub service_account : Text

-- the rest of the world is in the helper
pub record RestoreJobReco (E Conn : Type 0) : Type 0 where
  pub namespace : Text
  pub cr : RestoreJobCr
  pub helper : LazyTarget E Conn

module _ {E Conn : Type 0} where
  abbrev pub with_ext : E → RestoreJobReco E Conn → RestoreJobReco E Conn
  with_ext e w = record w { helper = record w.helper { ext = e } }

  abbrev pub restore_holds : Holds (RestoreJobReco E Conn) E
  restore_holds = record {
    ext = λ w. w.helper.ext;
    set_ext = with_ext;
    object = λ w. w.cr.object;
    namespace = λ w. w.namespace;
  }

module _ {E Conn : Type 0} (env : JobsEnvironment E RestoreJobCr Job)
    (lazy : LazyEnvironment E Conn) where
  unfoldable pub load_obj : RestoreJobReco E Conn → Loaded × RestoreJobReco E Conn
  unfolding find_job
  load_obj = find_job env (λ job. job.name) restore_holds

  unfoldable pub restore_job : RestoreJobReco E Conn → S3Storage → DbActions → Job
  unfolding build_job build_restore_container build_download_container
  restore_job w storage actions =
      build_job w.namespace (build_download_container storage w.cr.fixed_file_name ∷ [])
        (build_restore_container actions) w.cr.object.name w.cr.service_account

  unfoldable pub create_with :
      RestoreJobReco E Conn
      → Result (S3Storage × DbActions) × LazyTarget E Conn
      → Answer (RestoreJobReco E Conn)
  unfolding restore_job
  create_with w (ok (storage, actions), helper) =
      after_create env (λ job. job.name) restore_holds (record w { helper = helper })
        (env.create (restore_job w storage actions) helper.ext)
  create_with w (_, helper) =
      back_off env (λ job. job.name) restore_holds (record w { helper = helper })

  -- an error of the scripts is left to the loop
  abbrev pub after_scripts :
      RestoreJobReco E Conn → Option Error × E → Answer (RestoreJobReco E Conn)
  unfolding build_job build_restore_container build_download_container get_storage_info_and_actions
  after_scripts w (none, e) =
      create_with (with_ext e w) (get_storage_info_and_actions lazy (with_ext e w).helper)
  after_scripts w (some x, e) = (no_requeue, some x, with_ext e w)

  unfoldable pub create_obj : RestoreJobReco E Conn → Answer (RestoreJobReco E Conn)
  unfolding build_job build_restore_container build_download_container get_storage_info_and_actions
      ensure_scripts
  create_obj w = after_scripts w (ensure_scripts env w.namespace w.helper.ext)

  unfoldable pub remove_obj : RestoreJobReco E Conn → Answer (RestoreJobReco E Conn)
  unfolding delete_job
  remove_obj = delete_job env (λ job. job.name) restore_holds

  abbrev after_get : RestoreJobReco E Conn → Reply RestoreJobCr × E → Answer (RestoreJobReco E Conn)
  after_get w (got cr, e) = (
    no_requeue,
    none,
    record w { cr = cr; helper = new_lazy_target w.namespace cr.restore_target e },
  )
  after_get w (refused x, e) = (no_requeue, some x, with_ext e w)

  unfoldable pub load_cr : RestoreJobReco E Conn → Answer (RestoreJobReco E Conn)
  load_cr w = after_get w (env.get_cr w.helper.ext)

  abbrev pub restore_cluster : Cluster (RestoreJobReco E Conn)
  restore_cluster = record {
    update = λ o w. ((env.update o w.helper.ext).0, with_ext (env.update o w.helper.ext).1 w);
    since = λ t w. env.since t w.helper.ext;
  }

  -- `EnsureCorrect` and `CleanupConn` do nothing
  abbrev pub restore_reconcilable : Reconcilable (RestoreJobReco E Conn)
  restore_reconcilable = record {
    create_obj = create_obj;
    remove_obj = remove_obj;
    load_cr = load_cr;
    load_obj = load_obj;
    ensure_correct = λ w. (no_requeue, none, w);
    get_cr = λ w. w.cr.object;
    set_cr = λ o w. record w { cr = record w.cr { object = o } };
    cleanup_conn = λ w. w;
  }
