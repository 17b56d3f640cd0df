-- ===== src/Controllers/Jobs/Scheduled/Copy.antt =====
-- `DbCopyCronJobReco` of controllers/dbcopycronjob_controller.go.
use db_operator.Base.{
  if◌then◌else◌, false, true, Text, Error, Result, ok, List, [], ◌∷◌, Option, none, some, Bool,
}
use db_operator.Interfaces.Calls.{Reply, got, refused}
use db_operator.Interfaces.Kubernetes.{Object, Cluster}
use db_operator.Shared.Backoff.{no_requeue}
use db_operator.Controllers.Containers.{DbActions, build_backup_container, build_restore_container}
use db_operator.Controllers.Reconcile.{Answer, Loaded, Reconcilable}
use db_operator.Controllers.Jobs.Copy.{Databases, both_actions, get_server_actions_from_db_name}
use db_operator.Controllers.Jobs.Scheduled.{CronJobStatus, cron_status_eq}
use db_operator.Controllers.Jobs.{
  failed, loaded, CronJob, JobsEnvironment, Holds, back_off, find_job, after_create,
  back_off_deletion, controlled_by, with_scripts, build_cron_job,
}

-- the resource, with `DbCopyJobSpec`
pub record CopyCronJobCr : Type 0 where
  pub object : Object
  pub from_db_name : Text
  pub to_db_name : Text
  pub interval : Text
  pub suspend : Bool
  pub service_account : Text
  pub status : CronJobStatus

pub record CopyCronJobReco (E : Type 0) : Type 0 where
  pub namespace : Text
  pub cr : CopyCronJobCr
  pub ext : E

module _ {E : Type 0} where
  abbrev pub copy_holds : Holds (CopyCronJobReco E) E
  copy_holds = record {
    ext = λ w. w.ext;
    set_ext = λ e w. record w { ext = e };
    object = λ w. w.cr.object;
    namespace = λ w. w.namespace;
  }

module _ {E : Type 0} (env : JobsEnvironment E CopyCronJobCr CronJob)
    (databases : Databases E) where
  -- an error of the update is dropped
  unfoldable pub update_status : Bool → CopyCronJobReco E → CopyCronJobReco E
  update_status exists w =
      let status : CronJobStatus = record { exists = exists; cronjob_name = w.cr.object.name } in
      let cr = record w.cr { status = status } in
      if cron_status_eq w.cr.status status
      then w
      else copy_holds.set_ext (env.update_status cr (copy_holds.ext w)) (record w { cr = cr })

  unfoldable pub note_found : Loaded × CopyCronJobReco E → Loaded × CopyCronJobReco E
  unfolding update_status
  note_found (loaded exists, w) = (loaded exists, update_status exists w)
  note_found (failed x, w) = (failed x, w)

  -- no status is stored when the objects cannot be found
  unfoldable pub after_list :
      Reply (List CronJob) → Loaded × CopyCronJobReco E → Loaded × CopyCronJobReco E
  unfolding note_found
  after_list (got jobs) found = note_found found
  after_list (refused x) found = found

  unfoldable pub load_obj : CopyCronJobReco E → Loaded × CopyCronJobReco E
  unfolding find_job after_list
  load_obj w =
      after_list (env.list w.namespace controlled_by (copy_holds.ext w)).0
        (find_job env (λ job. job.name) copy_holds w)

  unfoldable pub note_created : Bool → Answer (CopyCronJobReco E) → Answer (CopyCronJobReco E)
  unfolding update_status
  note_created exists (res, e, w) = (res, e, update_status exists w)

  unfoldable pub copy_cron_job : CopyCronJobReco E → DbActions → DbActions → CronJob
  unfolding build_cron_job build_backup_container build_restore_container
  copy_cron_job w from_actions to_actions =
      build_cron_job w.namespace (build_backup_container from_actions ∷ [])
        (build_restore_container to_actions) w.cr.object.name w.cr.interval w.cr.suspend
        w.cr.service_account

  unfoldable pub create_with :
      CopyCronJobReco E → Result (DbActions × DbActions) × E → Answer (CopyCronJobReco E)
  unfolding copy_cron_job update_status
  create_with w (ok (from_actions, to_actions), e) = note_created true (
      after_create env (λ job. job.name) copy_holds (record w { ext = e })
        (env.create (copy_cron_job w from_actions to_actions) e))
  create_with w (_, e) = back_off env (λ job. job.name) copy_holds (record w { ext = e })

  unfoldable pub create_obj : CopyCronJobReco E → Answer (CopyCronJobReco E)
  unfolding build_cron_job build_backup_container build_restore_container
      get_server_actions_from_db_name update_status
  create_obj =
      with_scripts env (λ job. job.name) copy_holds
        (λ w.
          create_with w
            (both_actions databases w.namespace w.cr.from_db_name w.cr.to_db_name w.ext))

  abbrev after_remove : CopyCronJobReco E → Option Error × E → Answer (CopyCronJobReco E)
  unfolding update_status
  after_remove w (none, e) = (no_requeue, none, update_status false (record w { ext = e }))
  after_remove w (some x, e) =
      back_off_deletion env (λ job. job.name) copy_holds (record w { ext = e })

  unfoldable pub remove_obj : CopyCronJobReco E → Answer (CopyCronJobReco E)
  unfolding update_status
  remove_obj w = after_remove w (env.delete w.namespace w.cr.object.name w.ext)

  abbrev after_get : CopyCronJobReco E → Reply CopyCronJobCr × E → Answer (CopyCronJobReco E)
  after_get w (got cr, e) = (no_requeue, none, record w { cr = cr; ext = e })
  after_get w (refused x, e) = back_off env (λ job. job.name) copy_holds (record w { ext = e })

  unfoldable pub load_cr : CopyCronJobReco E → Answer (CopyCronJobReco E)
  load_cr w = after_get w (env.get_cr w.ext)

  abbrev pub copy_cluster : Cluster (CopyCronJobReco E)
  copy_cluster = record {
    update = λ o w. ((env.update o w.ext).0, record w { ext = (env.update o w.ext).1 });
    since = λ t w. env.since t w.ext;
  }

  -- `EnsureCorrect` and `CleanupConn` do nothing
  abbrev pub copy_reconcilable : Reconcilable (CopyCronJobReco E)
  copy_reconcilable = record {
    create_obj = create_obj;
    remove_obj = remove_obj;
    load_cr = load_cr;
    load_obj = load_obj;
    ensure_correct = λ w. (no_requeue, none, w);
    get_cr = λ w. w.cr.object;
    set_cr = λ o w. record w { cr = record w.cr { object = o } };
    cleanup_conn = λ w. w;
  }
