-- ===== src/Postgres/Backups.antt =====
-- The statements that CockroachDB has for backups, of dbservers/postgres/connection.go, and the secret
-- of a bucket, of shared/bucket_storage_info.go.
pub mod Redacted
use db_operator.Base.{
  Text, codes, is_empty, Error, Result, ok, err, panic, no_credentials, no_rows, List, [], ◌∷◌,
  ◌++◌, Option, none, some, Bool, true, false, not, ◌&&◌, ◌||◌, if◌then◌else◌, ℕ,
}
use db_operator.Base.Exec.{Exec, pure, raise, lift, ◌>>=◌}
use db_operator.Base.Maps.{lookup}
use db_operator.Interfaces.Funk.{Funk}
use db_operator.Interfaces.Pq.{Pq}
use db_operator.Interfaces.Sql.{Sql}
use db_operator.Shared.Urls.{set_value, encode_values, url_string}
use db_operator.Postgres.Select.{select_first_value_int}
use db_operator.Postgres.Statements.{concat}
use db_operator.Postgres.Constructors.{ConnectionGetter}

-- without the client of the API server
pub record BucketStorageInfo : Type 0 where
  pub storage_type_name : Text
  pub bucket_name : Text
  pub prefix : Text
  pub key_name : Text
  pub k8s_secret : Text
  pub k8s_secret_key : Text
  pub endpoint : Text

abbrev pub secret_entry : Text → List (Text × Text) → Result Text
secret_entry key secret = elim (lookup key secret) [
  | none ↦ err (no_credentials key)
  | some value ↦ ok value
]

abbrev pub with_endpoint : BucketStorageInfo → List (Text × Text) → List (Text × Text)
with_endpoint info values =
    if is_empty info.endpoint then values else set_value (codes "AWS_ENDPOINT") info.endpoint values

abbrev pub bucket_url : BucketStorageInfo → List (Text × Text) → Text
bucket_url info values =
    url_string info.storage_type_name info.bucket_name info.prefix
      (encode_values (with_endpoint info values))

abbrev pub key_values : BucketStorageInfo → Bool → Text → List (Text × Text)
key_values info redact secret =
    set_value (codes "AWS_SECRET_ACCESS_KEY") (if redact then codes "redacted" else secret)
      (set_value (codes "AWS_ACCESS_KEY_ID") info.key_name [])

unfoldable pub schedule_options : Bool → Bool → Text
schedule_options run_now ignore_existing =
    if run_now || ignore_existing
    then codes " WITH SCHEDULE OPTIONS"
      ++ ((if run_now then codes " first_run=now" else [])
          ++ (if ignore_existing then codes ",ignore_existing_backups" else []))
    else []

module _ ⦃pq : Pq⦄ where
  open pq use {quote_identifier, quote_literal}

  -- the bucket stands between quotes, and is not escaped
  abbrev pub backup_statement : Text → Text → Text → Text
  backup_statement db_name offset bucket = concat (
      codes "BACKUP DATABASE "
      ∷ quote_identifier db_name
      ∷ codes " INTO '"
      ∷ bucket
      ∷ codes "' "
      ∷ offset
      ∷ codes "WITH detached;"
      ∷ [])

  abbrev pub schedule_statement : Text → Text → Text → Text → Bool → Bool → Text
  unfolding schedule_options
  schedule_statement db_name bucket schedule_name schedule run_now ignore_existing = concat (
      codes "CREATE SCHEDULE IF NOT EXISTS "
      ∷ quote_identifier schedule_name
      ∷ codes " FOR BACKUP DATABASE "
      ∷ quote_identifier db_name
      ∷ codes " INTO "
      ∷ quote_literal bucket
      ∷ codes " RECURRING "
      ∷ quote_literal schedule
      ∷ codes " FULL BACKUP ALWAYS"
      ∷ schedule_options run_now ignore_existing
      ∷ codes ";"
      ∷ [])

module _ {W : Type 0} (get_secret : Text → Exec W (List (Text × Text))) where
  unfoldable pub get_bucket_secret : BucketStorageInfo → Exec W Text
  get_bucket_secret info =
      if is_empty info.key_name
      then pure []
      else (get_secret info.k8s_secret >>= λ secret. lift (secret_entry info.k8s_secret_key secret))

  unfoldable pub get_bucket_string : BucketStorageInfo → Bool → Exec W Text
  get_bucket_string info redact =
      if is_empty info.key_name
      then pure (bucket_url info (set_value (codes "AUTH") (codes "implicit") []))
      else (get_bucket_secret info >>= λ secret.
          pure (bucket_url info (key_values info redact secret)))

  unfoldable pub construct_backup_job_statement :
      ⦃pq : Pq⦄ → BucketStorageInfo → Text → Text → Bool → Exec W Text
  unfolding get_bucket_string
  construct_backup_job_statement info db_name offset redact = do
    bucket ← get_bucket_string info redact
    pure (backup_statement db_name offset bucket)

module _ ⦃funk : Funk⦄ ⦃pq : Pq⦄ ⦃db : Sql⦄ (getter : ConnectionGetter)
    (get_secret : Text → Exec db.World (List (Text × Text))) where
  open db use {World, Value, query_table}

  -- the identifier of the job is a natural number here
  unfoldable pub create_backup_job : Text → BucketStorageInfo → Exec World ℕ
  unfolding construct_backup_job_statement
  create_backup_job db_name info = do
    conn ← getter none none
    statement ←
        construct_backup_job_statement get_secret info db_name (codes "AS OF SYSTEM TIME '-10s' ")
          false
    select_first_value_int conn statement []

  unfoldable pub create_backup_schedule :
      Text → BucketStorageInfo → Text → Text → Bool → Bool → Exec World (List (List (Text × Value)))
  unfolding get_bucket_string
  create_backup_schedule db_name info schedule_name schedule run_now ignore_existing = do
    conn ← getter none none
    bucket ← get_bucket_string get_secret info false
    query_table conn
        (schedule_statement db_name bucket schedule_name schedule run_now ignore_existing) []

  abbrev pub first_schedule : List (List (Text × Value)) → Result (List (Text × Value))
  first_schedule [] = err no_rows
  first_schedule (row ∷ rows) = ok row

  unfoldable pub get_backup_schedule_by_label : Text → Exec World (List (Text × Value))
  get_backup_schedule_by_label label = do
    conn ← getter none none
    rows ←
        query_table conn (codes "WITH x as (SHOW SCHEDULES) SELECT * FROM x WHERE label=$1;")
          (label ∷ [])
    lift (first_schedule rows)
