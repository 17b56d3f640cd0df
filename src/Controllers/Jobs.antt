-- ===== src/Controllers/Jobs.antt =====
-- What the controllers of jobs share: `EnsureScripts`, `BuildJob`, `BuildCronJob`, `GetJobMap` and
-- `GetCronJobMap` of controllers/reconcilable.go, and the answers to their calls. The three
-- controllers of jobs, and those of cron jobs, are the modules below.
pub mod Backup
pub mod Restore
pub mod Copy
pub mod Scheduled
pub mod Scripts
pub mod Listed
use db_operator.Base.{
  Text, codes, text_eq, Error, List, [], ◌∷◌, ◌++◌, Option, none, some, is_some, Bool, true, false,
  ◌&&◌, if◌then◌else◌, ℕ,
}
use db_operator.Base.Int.{ℤ}
use db_operator.Base.Maps.{lookup, store}
use db_operator.Interfaces.Calls.{Reply, got, refused, Call}
use db_operator.Interfaces.Kubernetes.{Object}
use db_operator.Shared.Backoff.{CtrlResult, no_requeue, gradual_backoff_retry}
use db_operator.Shared.Errors.{is_cannot_find_error}
use db_operator.Shared.Scripts.{scripts_map}
use db_operator.Controllers.Containers.{Container, VolumeSource, get_volumes, scripts_configmap}
use db_operator.Controllers.Crdb.{option_text_eq}
use db_operator.Controllers.Reconcile.{Answer, Loaded, loaded, failed}

-- `v1.PodSpec`; no name of a service account is the empty one
pub record PodSpec : Type 0 where
  pub init_containers : List Container
  pub containers : List Container
  pub restart_policy : Text
  pub volumes : List (Text × VolumeSource)
  pub service_account_name : Text

-- `batchv1.Job`
pub record Job : Type 0 where
  pub name : Text
  pub namespace : Text
  pub labels : List (Text × Text)
  pub pod : PodSpec

-- `batchv1.CronJob`, with the pod of its jobs
pub record CronJob : Type 0 where
  pub name : Text
  pub namespace : Text
  pub labels : List (Text × Text)
  pub pod : PodSpec
  pub schedule : Text
  pub suspend : Bool

abbrev pub controlled_by : Text × Text
controlled_by = (codes "controlledBy", codes "DbOperator")

abbrev pub pod_spec : List Container → Container → Text → PodSpec
pod_spec init_containers container service_account = record {
  init_containers = init_containers;
  containers = container ∷ [];
  restart_policy = codes "Never";
  volumes = get_volumes;
  service_account_name = service_account;
}

unfoldable pub build_job : Text → List Container → Container → Text → Text → Job
build_job namespace init_containers container name service_account = record {
  name = name;
  namespace = namespace;
  labels = controlled_by ∷ [];
  pod = pod_spec init_containers container service_account;
}

unfoldable pub build_cron_job :
    Text → List Container → Container → Text → Text → Bool → Text → CronJob
build_cron_job namespace init_containers container name schedule suspend service_account = record {
  name = name;
  namespace = namespace;
  labels = controlled_by ∷ [];
  pod = pod_spec init_containers container service_account;
  schedule = schedule;
  suspend = suspend;
}

-- the calls for resources `Cr` and objects `J`, over the rest of the world
pub record JobsEnvironment (E Cr J : Type 0) : Type 0 where
  -- `Client.Get` of the resource, `Client.List` of the objects in a namespace with a label,
  -- `Client.Create`, and `Client.Delete` by namespace and name
  pub get_cr : Call E Cr
  pub list : Text → Text × Text → Call E (List J)
  pub create : J → E → Option Error × E
  pub delete : Text → Text → E → Option Error × E
  -- the same for config maps and their data
  pub get_config_map : Text → Text → Call E (List (Text × Text))
  pub create_config_map : Text → Text → List (Text × Text) → E → Option Error × E
  pub delete_config_map : Text → Text → E → Option Error × E
  pub update : Object → E → Option Error × E
  pub update_status : Cr → E → E
  pub since : ℕ → E → ℤ

-- `reflect.DeepEqual` of maps: every key of either has the same entry in both
abbrev same_entries : List (Text × Text) → List (Text × Text) → List (Text × Text) → Bool
same_entries [] a b = true
same_entries ((k, v) ∷ keys) a b = option_text_eq (lookup k a) (lookup k b) && same_entries keys a b

unfoldable pub data_eq : List (Text × Text) → List (Text × Text) → Bool
data_eq a b = same_entries (a ++ b) a b

module _ {E Cr J : Type 0} (env : JobsEnvironment E Cr J) where
  abbrev after_scripts_created : Option Error × E → Option Error × E
  after_scripts_created (_, e) = (none, e)

  abbrev pub create_scripts : Text → E → Option Error × E
  create_scripts namespace e =
      after_scripts_created (env.create_config_map namespace scripts_configmap scripts_map e)

  abbrev pub after_scripts_read : Text → Reply (List (Text × Text)) × E → Option Error × E
  after_scripts_read namespace (got entries, e) =
      if data_eq entries scripts_map
      then (none, e)
      else create_scripts namespace (env.delete_config_map namespace scripts_configmap e).1
  after_scripts_read namespace (refused x, e) =
      if is_cannot_find_error x then create_scripts namespace e else (some x, e)

  -- an error of the deletion, and any of the creation, is dropped
  unfoldable pub ensure_scripts : Text → E → Option Error × E
  ensure_scripts namespace e =
      after_scripts_read namespace (env.get_config_map namespace scripts_configmap e)

-- a map from names
unfoldable pub map_by_name : {J : Type 0} → (J → Text) → List (Text × J) → List J → List (Text × J)
map_by_name name_of found [] = found
map_by_name name_of found (job ∷ jobs) = map_by_name name_of (store (name_of job) job found) jobs

unfoldable pub get_job_map : {J : Type 0} → (J → Text) → Reply (List J) → Reply (List (Text × J))
unfolding map_by_name
get_job_map name_of (got jobs) = got (map_by_name name_of [] jobs)
get_job_map name_of (refused x) = refused x

-- where a controller keeps what the shared functions read and write
pub record Holds (W E : Type 0) : Type 0 where
  pub ext : W → E
  pub set_ext : E → W → W
  pub object : W → Object
  pub namespace : W → Text

module _ {E Cr J W : Type 0} (env : JobsEnvironment E Cr J) (name_of : J → Text)
    (holds : Holds W E) where
  open holds use {ext, set_ext, object, namespace}

  -- `LogAndBackoffCreation`
  abbrev pub back_off : W → Answer W
  back_off w = (gradual_backoff_retry (env.since (object w).creation_timestamp (ext w)), none, w)

  abbrev deletion_time : Option ℕ → ℕ
  deletion_time none = 0
  deletion_time (some t) = t

  -- `LogAndBackoffDeletion`, of an object that has a deletion timestamp
  abbrev pub back_off_deletion : W → Answer W
  back_off_deletion w = (
    gradual_backoff_retry (env.since (deletion_time (object w).deletion_timestamp) (ext w)),
    none,
    w,
  )

  abbrev exists_in : Text → Reply (List (Text × J)) → Loaded
  exists_in name (got jobs) = loaded (is_some (lookup name jobs))
  exists_in name (refused x) = if is_cannot_find_error x then loaded false else failed x

  -- whether there is an object with the name of the resource
  unfoldable pub find_job : W → Loaded × W
  unfolding get_job_map
  find_job w =
      let (reply, e) = env.list (namespace w) controlled_by (ext w) in
      (exists_in (object w).name (get_job_map name_of reply), set_ext e w)

  -- an error of the creation is only logged
  abbrev pub after_create : W → Option Error × E → Answer W
  after_create w (_, e) = (no_requeue, none, set_ext e w)

  abbrev after_delete : W → Option Error × E → Answer W
  after_delete w (none, e) = (no_requeue, none, set_ext e w)
  after_delete w (some x, e) = back_off_deletion (set_ext e w)

  unfoldable pub delete_job : W → Answer W
  delete_job w = after_delete w (env.delete (namespace w) (object w).name (ext w))

  abbrev pub then_create : (W → Answer W) → W → Option Error × E → Answer W
  then_create next w (none, e) = next (set_ext e w)
  then_create next w (some x, e) = back_off (set_ext e w)

  -- `EnsureScripts`, with a retry after its error
  abbrev pub with_scripts : (W → Answer W) → W → Answer W
  unfolding ensure_scripts
  with_scripts next w = then_create next w (ensure_scripts env (namespace w) (ext w))
