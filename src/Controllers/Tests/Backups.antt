-- ===== src/Controllers/Tests/Backups.antt =====
-- Backups on a server that counts them, with a resource whose status can be stored, or cannot.
use db_operator.Base.{
  codes, text_eq, Error, external, ok, err, [], none, some, Bool, true, false, ◌≡◌, inl, refl,
  arith, ℕ, suc, ◌+◌, ◌≤◌,
}
use db_operator.Base.Int.{ℤ, pos, negsuc}
use db_operator.Postgres.Backups.{BucketStorageInfo}
use db_operator.Controllers.Crdb.{JobStatus, is_zero}
use db_operator.Controllers.Crdb.Run.{RunCr, RunReco, RunEnvironment, runs}
use db_operator.Controllers.Crdb.Run.Laws.{RunLaws}
use db_operator.Controllers.Crdb.Run.Started.{runs-started}
use db_operator.Controllers.Crdb.Run.Again.{Unstorable, runs-again}
use db_operator.Controllers.Crdb.Schedule.{ScheduleCr, ScheduleEnvironment, is_stale}
use db_operator.Controllers.Tests.{finalizer_util}

record Server : Type 0 where
  stored : RunCr
  backups : ℕ

abbrev some_bucket : BucketStorageInfo
some_bucket = record {
  storage_type_name = codes "s3";
  bucket_name = codes "bucket";
  prefix = [];
  key_name = [];
  k8s_secret = [];
  k8s_secret_key = [];
  endpoint = [];
}

abbrev run_cr : JobStatus → RunCr
run_cr status = record {
  object = record {
    name = codes "nightly";
    creation_timestamp = 0;
    deletion_timestamp = none;
    finalizers = [];
  };
  status = status;
}

abbrev no_status : JobStatus
no_status = record {
  job_id = pos 0;
  job_state = [];
  description = [];
  created = pos 0;
  started = pos 0;
  finished = pos 0;
  failure = [];
}

abbrev storing : RunEnvironment Server (Unit {0})
storing = record {
  get_cr = λ e. (ok e.stored, e);
  get_pg_connection = λ e. (ok tt, e);
  get_db_name = λ e. (ok (codes "shop"), e);
  get_bucket_storage_info = λ e. (ok some_bucket, e);
  create_backup_job = λ c n i e. (ok (pos (suc e.backups)), record e { backups = e.backups + 1 });
  get_backup_job_by_id = λ c id e. (ok none, e);
  update_status = λ cr e. (ok tt, record e { stored = record e.stored { status = cr.status } });
  update = λ o e. (ok tt, record e { stored = record e.stored { object = o } });
  now = λ e. pos 9;
  since_creation = λ cr e. pos 0;
}

abbrev conflict : Error
conflict = external (codes "conflict")

-- every update of the status is refused
abbrev refusing : RunEnvironment Server (Unit {0})
refusing = record storing {
  get_cr = λ e. (ok (run_cr no_status), e);
  update_status = λ cr e. (err conflict, e);
}

abbrev server : Server
server = record { stored = run_cr no_status; backups = 0 }

abbrev reco : RunReco Server
reco = record { cr = run_cr no_status; ext = server }

nonzero : (n : ℕ) → is_zero (pos (suc n)) ≡ false
nonzero n = ground arith

storing-RunLaws : RunLaws storing (λ e. e.stored.status) (λ e. e.backups)
storing-RunLaws = record {
  cr_stored = λ e cr same. cc;
  get_cr_same = λ e. (refl, refl);
  connect_same = λ e. (refl, refl);
  db_name_same = λ e. (refl, refl);
  info_same = λ e. (refl, refl);
  by_id_same = λ c id e. (refl, refl);
  by_id_row = λ c id e row status h read. cc;
  update_same = λ o e. (refl, refl);
  update_status_stores = λ cr e. (refl, refl, refl);
  create_started = λ c n i e id h. (numbered e id h, refl);
  create_failed = λ c n i e. inl (pos (suc e.backups), refl);
}
  where
    numbered : (e : Server) (id : ℤ) → ok (pos (suc e.backups)) ≡ ok id → is_zero id ≡ false
    numbered e (pos n) h = ground (arith, h)
    numbered e (negsuc n) h = refl

runs-started_example : (runs ⦃util = finalizer_util⦄ storing 3 reco).ext.backups ≤ 1
runs-started_example =
    runs-started ⦃util = finalizer_util⦄ storing (λ e. e.stored.status) (λ e. e.backups)
      storing-RunLaws 3 reco (inl refl)

refusing-Unstorable :
    Unstorable refusing
      (λ e. e.backups)
      (run_cr no_status)
      tt
      (codes "shop")
      some_bucket
      (λ e. record e { backups = e.backups + 1 })
      conflict
refusing-Unstorable = record {
  no_backup = refl;
  read_cr = λ e. refl;
  connected = λ e. refl;
  named = λ e. refl;
  informed = λ e. refl;
  begun = λ e. (pos (suc e.backups), refl, nonzero e.backups);
  counted = λ e. refl;
  unstored = λ cr e. refl;
}

runs-again_example : (runs ⦃util = finalizer_util⦄ refusing 3 reco).ext.backups ≡ 3
runs-again_example =
    runs-again ⦃util = finalizer_util⦄ refusing (λ e. e.backups) (run_cr no_status) tt
      (codes "shop") some_bucket (λ e. record e { backups = e.backups + 1 }) conflict
      refusing-Unstorable 3 reco

-- the state is whether there is a schedule
abbrev schedules : ScheduleEnvironment Bool (Unit {0})
schedules = record {
  get_cr = λ e. (err conflict, e);
  get_pg_connection = λ e. (ok tt, e);
  get_db_name = λ e. (ok (codes "shop"), e);
  get_bucket_storage_info = λ e. (ok some_bucket, e);
  construct_backup_job_statement = λ i n offset redact e. (ok (codes "BACKUP new;"), e);
  create_backup_schedule = λ c n i name interval now ignore e. (ok [], true);
  get_backup_schedule_by_label = λ c n e. (err conflict, e);
  get_backup_schedule_by_id = λ c id e. (err conflict, e);
  drop_backup_schedule = λ c id e. (ok tt, false);
  pause_schedule = λ c id e. (ok tt, e);
  resume_schedule = λ c id e. (ok tt, e);
  unmarshal = λ s. err conflict;
  update_status = λ cr e. (ok tt, e);
  sleep = λ n e. e;
  since_creation = λ cr e. pos 0;
  since_deletion = λ cr e. pos 0;
}

abbrev paused : ScheduleCr
paused = record {
  name = codes "nightly";
  interval = codes "@daily";
  suspend = true;
  ignore_existing_backups = false;
  drop_on_deletion = true;
  status = record {
    schedule_id = pos 7;
    schedule_state = codes "PAUSED";
    state = none;
    command = some (codes "BACKUP old");
    created = pos 0;
  };
}

old-stale : is_stale schedules (codes "BACKUP new;") (codes "BACKUP old") ≡ true
unfolding text_eq
old-stale = refl
