-- ===== src/Controllers/Tests/Jobs.antt =====
-- A backup target on one server, and an API server that keeps jobs and config maps.
use db_operator.Base.{
  subst, ap, Text, codes, text_eq, to_lower, status, ok, List, [], ◌∷◌, Option, none, some, true,
  false, ◌≡◌, ◌⊎◌, inl, refl,
}
use db_operator.Base.Int.{pos}
use db_operator.Base.Maps.{lookup}
use db_operator.Interfaces.Calls.{Reply, got, refused}
use db_operator.Interfaces.Kubernetes.{Object}
use db_operator.Shared.Backoff.{no_requeue}
use db_operator.Shared.Errors.{is_cannot_find_error}
use db_operator.Shared.Scripts.{scripts_map, backup_postgres_script}
use db_operator.Controllers.Db.{DbCr}
use db_operator.Controllers.DbServers.{get_db_server, pick_server}
use db_operator.Controllers.Containers.{
  S3Storage, DbActions, postgres_actions, get_server_actions, scripts_configmap,
}
use db_operator.Controllers.Lazy.{
  get_helped_server, get_server_helper, get_db_server_of, get_db, get_lazy_db_helper, get_actions,
  get_target, get_storage_helper, get_storage_actions, memo, Target, LazyEnvironment, LazyTarget,
  new_lazy_target, get_storage_info_and_actions, get_target_connection, cleanup_conn,
}
use db_operator.Controllers.Lazy.Direct.{seen, read_all, read_all-seen}
use db_operator.Controllers.Lazy.Unclosed.{get_target_connection-unclosed}
use db_operator.Controllers.Reconcile.{loaded, run}
use db_operator.Controllers.Jobs.{
  map_by_name, get_job_map, find_job, controlled_by, data_eq, Job, JobsEnvironment, ensure_scripts,
}
use db_operator.Controllers.Jobs.Scripts.{
  ConfigMapLaws, Scripted, Refused, written, ensure_scripts-Scripted,
}
use db_operator.Controllers.Jobs.Backup.{
  create_with, BackupJobCr, BackupJobReco, backup_job, load_obj, create_obj, backup_cluster,
  backup_reconcilable,
}
use db_operator.Controllers.Jobs.Backup.Found.{
  create_obj-Ready, Among, JobLaws, Ready, create_obj-found, run-unretried,
}
use db_operator.Controllers.Tests.{finalizer_util}
use db_operator.Controllers.Tests.Users.{server_in}

record Api : Type 0 where
  jobs : List Job
  scripts : Option (List (Text × Text))

abbrev pub near : Text
near = codes "near"

abbrev shop_target : Target
shop_target = record {
  storage_type = codes "S3";
  storage_location = codes "bucket";
  db_name = codes "shop";
}

abbrev bucket : S3Storage
bucket = record {
  bucket_name = codes "backups";
  region = codes "eu";
  role_arn = [];
  access_key_k8s_secret = codes "s3";
  access_key_k8s_secret_key = [];
  prefix = [];
  acces_key_id = codes "key";
  endpoint = [];
}

abbrev pub object_named : Text → Object
object_named name = record {
  name = name;
  creation_timestamp = 0;
  deletion_timestamp = none;
  finalizers = [];
}

abbrev shop_db : DbCr
shop_db = record {
  object = object_named (codes "shop");
  namespace = near;
  server = codes "main";
  db_name = codes "shop";
  drop_on_deletion = true;
  cascade_on_drop = false;
  after_create_sql = [];
}

abbrev pub lazy_environment : {E : Type 0} → LazyEnvironment E (Unit {0})
lazy_environment = record {
  get_target = λ ns name e. (ok shop_target, e);
  get_s3_storage = λ ns name e. (ok bucket, e);
  get_db = λ ns name e. (ok shop_db, e);
  list_servers = λ e. (ok (server_in near ∷ []), e);
  get_secret = λ ns name e. (ok ((codes "password", codes "pw") ∷ []), e);
  get_server_connection = λ info e. (ok tt, e);
  close = λ c e. e;
}

abbrev pub new_helper : {E : Type 0} → E → LazyTarget E (Unit {0})
new_helper e = new_lazy_target near (codes "nightly") e

abbrev start : Api
start = record { jobs = []; scripts = none }

read_all-seen_example :
    seen {E = Api} lazy_environment
      (get_storage_info_and_actions lazy_environment (new_helper start))
    ≡ read_all {E = Api} lazy_environment near (codes "nightly") start
read_all-seen_example = read_all-seen lazy_environment near (codes "nightly") start

abbrev shop_actions : DbActions
shop_actions = postgres_actions (server_in near) shop_db

-- after everything was read
abbrev full_helper : Api → LazyTarget Api (Unit {0})
full_helper e = record (new_helper e) {
  target = some shop_target;
  storage_helper = some (codes "S3", codes "bucket");
  storage_actions = some bucket;
  db_helper = some (codes "shop");
  db = some shop_db;
  server_helper = some (codes "main");
  server = some (server_in near);
}

helper_reads :
    (e : Api)
    → get_storage_info_and_actions lazy_environment (new_helper e)
      ≡ (ok (bucket, shop_actions), full_helper e)
unfolding get_storage_info_and_actions get_server_actions get_db_server pick_server text_eq to_lower
    memo get_storage_actions get_storage_helper get_target get_actions get_lazy_db_helper get_db
    get_db_server_of get_server_helper get_helped_server
helper_reads e = refl

get_target_connection-unclosed_example :
    cleanup_conn {E = Api} lazy_environment
      (get_target_connection lazy_environment (new_helper start)).1
    ≡ (get_target_connection lazy_environment (new_helper start)).1
get_target_connection-unclosed_example =
    get_target_connection-unclosed lazy_environment (new_helper start) refl

abbrev backup_cr : BackupJobCr
backup_cr = record {
  object = object_named (codes "nightly");
  backup_target = codes "nightly";
  fixed_file_name = none;
  service_account = [];
}

abbrev read_scripts : Option (List (Text × Text)) → Reply (List (Text × Text))
read_scripts none = refused (status (codes "NotFound"))
read_scripts (some entries) = got entries

abbrev api : JobsEnvironment Api BackupJobCr Job
api = record {
  get_cr = λ e. (got backup_cr, e);
  list = λ ns label e. (got e.jobs, e);
  create = λ job e. (none, record e { jobs = job ∷ e.jobs });
  delete = λ ns name e. (none, record e { jobs = [] });
  get_config_map = λ ns name e. (read_scripts e.scripts, e);
  create_config_map = λ ns name entries e. (none, record e { scripts = some entries });
  delete_config_map = λ ns name e. (none, record e { scripts = none });
  update = λ o e. (none, e);
  update_status = λ cr e. e;
  since = λ t e. pos 0;
}

read_scripts-got :
    (o : Option (List (Text × Text))) (entries : List (Text × Text))
    → read_scripts o ≡ got entries
    → o ≡ some entries
read_scripts-got none entries h = cc
read_scripts-got (some found) entries h = cc

api-ConfigMapLaws : ConfigMapLaws api (λ ns name e. e.scripts)
api-ConfigMapLaws = record {
  read = λ ns name e entries h. read_scripts-got e.scripts entries h;
  accepted = λ ns name entries e h. refl;
}

-- a config map with other data
abbrev outdated : Api
outdated = record { jobs = []; scripts = some ((codes "backup_postgres.sh", codes "old") ∷ []) }

outdated_fine : (ensure_scripts api near outdated).0 ≡ none
unfolding ensure_scripts data_eq lookup text_eq backup_postgres_script
outdated_fine = refl

ensure_scripts-Scripted_example :
    Scripted api (λ ns name e. e.scripts) near (ensure_scripts api near outdated)
    ⊎ Refused api
        (λ ns name e. e.scripts)
        near
        (written api
          (λ ns name e. e.scripts)
          near
          (api.get_config_map near scripts_configmap outdated))
ensure_scripts-Scripted_example =
    ensure_scripts-Scripted api (λ ns name e. e.scripts) api-ConfigMapLaws near outdated
      outdated_fine

Among-first : (job : Job) (jobs listed : List Job) → job ∷ jobs ≡ listed → Among job listed
Among-first job jobs listed same = subst (Among job) same (inl refl)

api-JobLaws : JobLaws api
api-JobLaws = record {
  listed = λ job e jobs accepted labelled h. Among-first job e.jobs jobs (unreplied h);
}
  where
    unreplied : {a b : List Job} → got a ≡ got b → a ≡ b
    unreplied h = cc

abbrev reco : BackupJobReco Api (Unit {0})
reco = record { namespace = near; cr = backup_cr; helper = new_helper start }

abbrev scripted : Api
scripted = record { jobs = []; scripts = some scripts_map }

reco-Ready : Ready api lazy_environment reco bucket shop_actions (full_helper scripted)
unfolding ensure_scripts is_cannot_find_error text_eq
reco-Ready = (refl, helper_reads scripted)

listed_after :
    (api.list near controlled_by (create_obj api lazy_environment reco).2.helper.ext).0
    ≡ got (backup_job api lazy_environment reco bucket shop_actions ∷ [])
unfolding create_with
listed_after =
    ap (λ a. (api.list near controlled_by a.2.helper.ext).0)
      (create_obj-Ready api lazy_environment reco bucket shop_actions (full_helper scripted)
        reco-Ready)

create_obj-found_example :
    (load_obj api lazy_environment (create_obj api lazy_environment reco).2).0 ≡ loaded true
create_obj-found_example =
    create_obj-found api lazy_environment api-JobLaws reco bucket shop_actions
      (full_helper scripted) (backup_job api lazy_environment reco bucket shop_actions ∷ [])
      reco-Ready refl listed_after

-- no job is accepted
abbrev refusing : JobsEnvironment Api BackupJobCr Job
refusing = record api { create = λ job e. (some (status (codes "Forbidden")), e) }

refusing-Ready : Ready refusing lazy_environment reco bucket shop_actions (full_helper scripted)
unfolding ensure_scripts is_cannot_find_error text_eq
refusing-Ready = (refl, helper_reads scripted)

no_job : load_obj refusing lazy_environment reco ≡ (loaded false, reco)
unfolding load_obj find_job get_job_map map_by_name lookup
no_job = refl

run-unretried_example :
    (run ⦃util = finalizer_util⦄ ⦃cluster = backup_cluster refusing lazy_environment⦄
      (backup_reconcilable refusing lazy_environment)
      reco).0
    ≡ no_requeue
run-unretried_example =
    run-unretried ⦃util = finalizer_util⦄ refusing lazy_environment reco reco bucket shop_actions
      (full_helper scripted) refl no_job refusing-Ready (λ o e. refl)
