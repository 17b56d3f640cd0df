-- ===== src/Controllers/Jobs/Scheduled/Stale.antt =====
-- A cron job is not changed after it was created.
use db_operator.Base.{
  sym, subst, Option-cases, inr, inl, ◌∙◌, Bool-cases, Text, List, none, Bool, true, false, ◌≡◌,
  refl,
}
use db_operator.Interfaces.Calls.{Reply, got, refused}
use db_operator.Interfaces.Kubernetes.{Object, ControllerUtil}
use db_operator.Controllers.Lazy.{LazyEnvironment}
use db_operator.Controllers.Reconcile.{
  run, db_operator_finalizer, Loaded, loaded, failed, act, on_correct, ensure_finalizer,
  add_finalizer_to_cr, settle,
}
use db_operator.Controllers.Jobs.{CronJob, JobsEnvironment, controlled_by, find_job}
use db_operator.Controllers.Jobs.Scheduled.{cron_status_eq}
use db_operator.Controllers.Jobs.Scheduled.Backup.{
  backup_holds, note_found, after_list, update_status, BackupCronJobCr, BackupCronJobReco, load_obj,
  backup_cluster, backup_reconcilable,
}

module _ ⦃util : ControllerUtil⦄ {E Conn : Type 0} (env : JobsEnvironment E BackupCronJobCr CronJob)
    (lazy : LazyEnvironment E Conn) {X : Type 0} (jobs : E → X) where
  -- the calls that do not change the cron jobs
  pub record Still : Type 0 where
    pub listing : (ns : Text) (label : Text × Text) (e : E) → jobs (env.list ns label e).1 ≡ jobs e
    pub storing : (cr : BackupCronJobCr) (e : E) → jobs (env.update_status cr e) ≡ jobs e
    pub updating : (o : Object) (e : E) → jobs (env.update o e).1 ≡ jobs e

  abbrev SameJobs : BackupCronJobReco E Conn → BackupCronJobReco E Conn → Type 0
  SameJobs w v = jobs w.helper.ext ≡ jobs v.helper.ext

  update_status-still :
      Still
      → (exists : Bool) (w : BackupCronJobReco E Conn)
      → SameJobs (update_status env lazy exists w) w
  unfolding update_status
  update_status-still still exists w =
      elim (Bool-cases (
        cron_status_eq w.cr.status (record { exists = exists; cronjob_name = w.cr.object.name }))) [
          | inl same ↦ rw same refl
          | inr other ↦ rw other (still.storing _ w.helper.ext)
        ]

  after_list-still :
      Still
      → (r : Reply (List CronJob)) (found : Loaded × BackupCronJobReco E Conn)
      → SameJobs (after_list env lazy r found).1 found.1
  unfolding update_status after_list note_found
  after_list-still still (refused x) found = refl
  after_list-still still (got listed) (loaded exists, w) = update_status-still still exists w
  after_list-still still (got listed) (failed x, w) = refl

  load_obj-still : Still → (w : BackupCronJobReco E Conn) → SameJobs (load_obj env lazy w).1 w
  unfolding load_obj find_job after_list
  load_obj-still still w =
      after_list-still still (env.list w.namespace controlled_by w.helper.ext).0
        (find_job env (λ job. job.name) backup_holds w)
      ∙ still.listing w.namespace controlled_by w.helper.ext

  act-still :
      Still
      → (r : Loaded × BackupCronJobReco E Conn) → r.0 ≡ loaded true
      → SameJobs
          (act ⦃cluster = backup_cluster env lazy⦄ (backup_reconcilable env lazy) none r).1
          r.1
  unfolding act on_correct ensure_finalizer add_finalizer_to_cr settle
  act-still still (failed x, w) h = cc
  act-still still (loaded false, w) h = cc
  act-still still (loaded true, w) h =
      elim (Bool-cases (util.contains_finalizer w.cr.object db_operator_finalizer)) [
        | inl has ↦ rw has refl
        | inr lacks ↦
            let o : Object = util.add_finalizer w.cr.object db_operator_finalizer in
            elim (Option-cases (env.update o w.helper.ext).0) [
              | inl fine ↦ rw (lacks, fine) (still.updating o w.helper.ext)
              | inr (x, bad) ↦ rw (lacks, bad) (still.updating o w.helper.ext)
            ]
      ]

  -- A backup cron job whose object exists and whose resource stays: after the reconciliation the cron
  -- jobs are what they were, whatever schedule and suspension the resource asks for.
  pub run-stale :
      Still
      → (w : BackupCronJobReco E Conn) → w.cr.object.deletion_timestamp ≡ none
      → (load_obj env lazy w).0 ≡ loaded true
      → jobs (run ⦃cluster = backup_cluster env lazy⦄ (backup_reconcilable env lazy) w).1.helper.ext
        ≡ jobs w.helper.ext
  unfolding run
  run-stale still w stays exists =
      subst
        (λ d.
          jobs
            (act ⦃cluster = backup_cluster env lazy⦄ (backup_reconcilable env lazy) d
              (load_obj env lazy w)).1.helper.ext
          ≡ jobs w.helper.ext)
        (sym stays) (act-still still (load_obj env lazy w) exists ∙ load_obj-still still w)
