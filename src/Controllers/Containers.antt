-- ===== src/Controllers/Containers.antt =====
-- The containers of a job: `PostgresActions` of dbservers/postgres/dbinfo.go, `MySqlActions` of
-- dbservers/mysql/dbinfo.go, `S3StorageInfo` of controllers/storage_info.go, and the volumes of
-- shared/shared.go that they mount.
pub mod Scripts
pub mod Secrets
use db_operator.Base.{
  Text, codes, text_eq, to_lower, is_empty, remove_first, Error, Result, ok, err, unsupported, List,
  [], ◌∷◌, ◌++◌, Option, none, some, ◌||◌, if◌then◌else◌, ℕ,
}
use db_operator.Base.Int.{itoa}
use db_operator.Shared.Scripts.{
  backup_postgres, restore_postgres, backup_mysql, restore_mysql, upload_s3, download_s3,
}
use db_operator.Shared.Strings.{nvl, replace_non_allowed_chars}
use db_operator.Postgres.Backups.{BucketStorageInfo}
use db_operator.Controllers.DbServers.{DbServer}
use db_operator.Controllers.Db.{DbCr}

-- `v1.EnvVar`: a value, or an entry of a secret
pub data EnvValue : Type 0 where
  value : Text → EnvValue
  secret_key_ref : Text → Text → EnvValue

-- `v1.Container`, with what the program sets
pub record Container : Type 0 where
  pub name : Text
  pub image : Text
  pub env : List (Text × EnvValue)
  pub command : List Text
  pub volume_mounts : List (Text × Text)

pub data VolumeSource : Type 0 where
  config_map : Text → ℕ → VolumeSource
  empty_dir : VolumeSource

abbrev pub scripts_volume_name : Text
scripts_volume_name = codes "scripts"

abbrev pub backup_volume_name : Text
backup_volume_name = codes "backups"

abbrev pub scripts_configmap : Text
scripts_configmap = codes "db-operator-scripts"

-- `path.Join("/", …)` of names without a slash and without dots alone
abbrev pub join_path : List Text → Text
join_path [] = []
join_path (name ∷ names) = b'/' ∷ name ++ join_path names

abbrev pub volume_mounts : List (Text × Text)
volume_mounts =
    (scripts_volume_name, join_path (scripts_volume_name ∷ []))
    ∷ (backup_volume_name, join_path (backup_volume_name ∷ []))
    ∷ []

abbrev pub get_volumes : List (Text × VolumeSource)
get_volumes =
    (scripts_volume_name, config_map scripts_configmap 511) ∷ (backup_volume_name, empty_dir) ∷ []

abbrev pub script_path : Text → Text
script_path script = join_path (scripts_volume_name ∷ script ∷ [])

abbrev password_ref : DbServer → EnvValue
password_ref server = secret_key_ref server.secret_name (nvl server.password_key (codes "password"))

abbrev container_name : Text → Text → Text
container_name prefix script =
    prefix ++ replace_non_allowed_chars (remove_first script (codes ".sh"))

unfoldable pub postgres_container : DbServer → DbCr → Text → Container
postgres_container server db script = record {
  name = container_name (codes "pg-") script;
  image = codes "postgres:" ++ nvl server.version (codes "latest");
  env =
      (codes "PGHOST", value server.address)
      ∷ (codes "PGUSER", value server.user_name)
      ∷ (codes "PGPORT", value (itoa server.port))
      ∷ (codes "PGPASSWORD", password_ref server)
      ∷ (codes "DATABASE", value db.db_name)
      ∷ [];
  command = script_path script ∷ [];
  volume_mounts = volume_mounts;
}

unfoldable pub mysql_container : DbServer → DbCr → Text → Container
mysql_container server db script = record {
  name = container_name (codes "mysql-") script;
  image = codes "mysql:" ++ nvl server.version (codes "latest");
  env =
      (codes "MYSQL_HOST", value server.address)
      ∷ (codes "MYSQL_USER", value server.user_name)
      ∷ (codes "MYSQL_PWD", password_ref server)
      ∷ (codes "MYSQL_DATABASE", value db.db_name)
      ∷ [];
  command = script_path script ∷ [];
  volume_mounts = volume_mounts;
}

-- `shared.DbActions`; the options of the base are not read
pub data DbActions : Type 0 where
  postgres_actions : DbServer → DbCr → DbActions
  my_sql_actions : DbServer → DbCr → DbActions

unfoldable pub build_backup_container : DbActions → Container
unfolding postgres_container mysql_container
build_backup_container (postgres_actions server db) = postgres_container server db backup_postgres
build_backup_container (my_sql_actions server db) = mysql_container server db backup_mysql

unfoldable pub build_restore_container : DbActions → Container
unfolding postgres_container mysql_container
build_restore_container (postgres_actions server db) = postgres_container server db restore_postgres
build_restore_container (my_sql_actions server db) = mysql_container server db restore_mysql

unfoldable pub get_server_actions : DbServer → DbCr → Result DbActions
get_server_actions server db =
    let type = to_lower server.server_type in
    if text_eq type (codes "postgres") || text_eq type (codes "cockroachdb")
    then ok (postgres_actions server db)
    else if text_eq type (codes "mysql")
    then ok (my_sql_actions server db)
    else err unsupported

-- `S3StorageSpec`
pub record S3Storage : Type 0 where
  pub bucket_name : Text
  pub region : Text
  pub role_arn : Text
  pub access_key_k8s_secret : Text
  pub access_key_k8s_secret_key : Text
  pub prefix : Text
  pub acces_key_id : Text
  pub endpoint : Text

abbrev pub secret_access_key : S3Storage → Text
secret_access_key s3 = nvl s3.access_key_k8s_secret_key (codes "SECRET_ACCESS_KEY")

abbrev given : Text → Text → List (Text × EnvValue)
given name text = if is_empty text then [] else (name, value text) ∷ []

abbrev access_key : S3Storage → List (Text × EnvValue)
access_key s3 =
    (codes "AWS_ACCESS_KEY_ID", value s3.acces_key_id)
    ∷ (
      codes "AWS_SECRET_ACCESS_KEY",
      secret_key_ref s3.access_key_k8s_secret (secret_access_key s3),
    )
    ∷ []

abbrev file_name : Option Text → List (Text × EnvValue)
file_name none = []
file_name (some name) = (codes "S3_FILE_NAME", value name) ∷ []

unfoldable pub s3_env : S3Storage → Option Text → List (Text × EnvValue)
s3_env s3 fixed_file_name =
    ((codes "S3_BUCKET_NAME", value s3.bucket_name)
      ∷ (codes "S3_PREFIX", value s3.prefix)
      ∷ (codes "AWS_DEFAULT_REGION", value s3.region)
      ∷ [])
    ++ ((if is_empty s3.acces_key_id then [] else access_key s3)
        ++ (given (codes "AWS_ROLE_ARN") s3.role_arn
            ++ (file_name fixed_file_name ++ given (codes "S3_ENDPOINT") s3.endpoint)))

unfoldable pub s3_container : S3Storage → Text → Option Text → Container
unfolding s3_env
s3_container s3 script fixed_file_name = record {
  name = codes "s3-upload";
  image = codes "amazon/aws-cli";
  env = s3_env s3 fixed_file_name;
  command = script_path script ∷ [];
  volume_mounts = volume_mounts;
}

unfoldable pub build_upload_container : S3Storage → Option Text → Container
unfolding s3_container
build_upload_container s3 fixed_file_name = s3_container s3 upload_s3 fixed_file_name

unfoldable pub build_download_container : S3Storage → Option Text → Container
unfolding s3_container
build_download_container s3 fixed_file_name = s3_container s3 download_s3 fixed_file_name

abbrev keyed : S3Storage → Text → Text
keyed s3 text = if is_empty s3.acces_key_id then [] else text

-- without the client
unfoldable pub get_bucket_storage_info : S3Storage → BucketStorageInfo
get_bucket_storage_info s3 = record {
  storage_type_name = codes "s3";
  bucket_name = s3.bucket_name;
  prefix = s3.prefix;
  key_name = keyed s3 s3.acces_key_id;
  k8s_secret = keyed s3 s3.access_key_k8s_secret;
  k8s_secret_key = keyed s3 (secret_access_key s3);
  endpoint = s3.endpoint;
}
