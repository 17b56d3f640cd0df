-- ===== src/Controllers/Tests/CronJobs.antt =====
-- A backup cron job whose resource has another schedule than the object.
use db_operator.Base.{codes, text_eq, List, [], ◌∷◌, none, true, false, ◌≡◌, refl}
use db_operator.Base.Int.{pos}
use db_operator.Base.Maps.{lookup, store}
use db_operator.Interfaces.Calls.{got}
use db_operator.Controllers.Containers.{get_volumes}
use db_operator.Controllers.Reconcile.{loaded, run}
use db_operator.Controllers.Jobs.{
  CronJob, JobsEnvironment, controlled_by, find_job, map_by_name, get_job_map,
}
use db_operator.Controllers.Jobs.Scheduled.Backup.{
  BackupCronJobCr, BackupCronJobReco, backup_cluster, backup_reconcilable, load_obj, update_status,
  after_list, note_found,
}
use db_operator.Controllers.Jobs.Scheduled.Stale.{Still, run-stale}
use db_operator.Controllers.Tests.{finalizer_util}
use db_operator.Controllers.Tests.Jobs.{lazy_environment, new_helper, object_named, near}

abbrev hourly : CronJob
hourly = record {
  name = codes "nightly";
  namespace = near;
  labels = controlled_by ∷ [];
  pod = record {
    init_containers = [];
    containers = [];
    restart_policy = codes "Never";
    volumes = get_volumes;
    service_account_name = [];
  };
  schedule = codes "@hourly";
  suspend = false;
}

abbrev daily_cr : BackupCronJobCr
daily_cr = record {
  object = object_named (codes "nightly");
  backup_target = codes "nightly";
  fixed_file_name = none;
  interval = codes "@daily";
  suspend = true;
  service_account = [];
  status = record { exists = false; cronjob_name = [] };
}

abbrev cron_api : JobsEnvironment (List CronJob) BackupCronJobCr CronJob
cron_api = record {
  get_cr = λ e. (got daily_cr, e);
  list = λ ns label e. (got e, e);
  create = λ job e. (none, job ∷ e);
  delete = λ ns name e. (none, []);
  get_config_map = λ ns name e. (got [], e);
  create_config_map = λ ns name entries e. (none, e);
  delete_config_map = λ ns name e. (none, e);
  update = λ o e. (none, e);
  update_status = λ cr e. e;
  since = λ t e. pos 0;
}

abbrev cron_reco : BackupCronJobReco (List CronJob) (Unit {0})
cron_reco = record { namespace = near; cr = daily_cr; helper = new_helper (hourly ∷ []) }

cron_api-Still : Still ⦃util = finalizer_util⦄ cron_api lazy_environment (λ e. e)
cron_api-Still = record {
  listing = λ ns label e. refl;
  storing = λ cr e. refl;
  updating = λ o e. refl;
}

hourly_found : (load_obj cron_api lazy_environment cron_reco).0 ≡ loaded true
unfolding load_obj find_job get_job_map map_by_name store lookup text_eq update_status after_list
    note_found
hourly_found = refl

run-stale_example :
    (run ⦃util = finalizer_util⦄ ⦃cluster = backup_cluster cron_api lazy_environment⦄
      (backup_reconcilable cron_api lazy_environment)
      cron_reco).1.helper.ext
    ≡ hourly ∷ []
run-stale_example =
    run-stale ⦃util = finalizer_util⦄ cron_api lazy_environment (λ e. e) cron_api-Still cron_reco
      refl hourly_found
