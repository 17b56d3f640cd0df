-- ===== src/Postgres/Tests/Backups.antt =====
-- A bucket whose secret differs between two API servers.
use db_operator.Base.{
  Text, codes, text_eq, text_lt, join, has_prefix, contains_byte, ok, List, [], ◌∷◌, ◌≡◌, refl,
  true, false,
}
use db_operator.Base.Exec.{Exec}
use db_operator.Base.Maps.{lookup}
use db_operator.Interfaces.Pq.{reference_pq}
use db_operator.Shared.Urls.{set_value, encode_values, url_string, query_escape, escape_url}
use db_operator.Postgres.Backups.{
  BucketStorageInfo, get_bucket_secret, get_bucket_string, construct_backup_job_statement,
  schedule_options,
}
use db_operator.Postgres.Backups.Redacted.{construct_backup_job_statement-redacted}

abbrev test_bucket : BucketStorageInfo
test_bucket = record {
  storage_type_name = codes "s3";
  bucket_name = codes "testbucket";
  prefix = [];
  key_name = codes "MYKEY";
  k8s_secret = codes "bucket-secret";
  k8s_secret_key = codes "key";
  endpoint = codes "http://minio:9000";
}

-- the world is the secret
abbrev stored_secret : Text → Exec Text (List (Text × Text))
stored_secret name w = (ok ((codes "key", w) ∷ []), w)

abbrev other_secret : Text → Exec Text (List (Text × Text))
other_secret name w = (ok ((codes "key", codes "other") ∷ []), w)

stored_bucket :
    get_bucket_secret stored_secret test_bucket (codes "pw") ≡ (ok (codes "pw"), codes "pw")
unfolding get_bucket_secret lookup text_eq
stored_bucket = refl

other_bucket :
    get_bucket_secret other_secret test_bucket (codes "pw") ≡ (ok (codes "other"), codes "pw")
unfolding get_bucket_secret lookup text_eq
other_bucket = refl

bucket_string_example :
    (get_bucket_string stored_secret test_bucket false (codes "p/w")).0
    ≡ ok (
        codes
          "s3://testbucket?AWS_ACCESS_KEY_ID=MYKEY&AWS_ENDPOINT=http%3A%2F%2Fminio%3A9000&AWS_SECRET_ACCESS_KEY=p%2Fw")
unfolding get_bucket_string get_bucket_secret lookup text_eq text_lt set_value encode_values
    url_string query_escape escape_url join has_prefix contains_byte
bucket_string_example = refl

-- the options begin with a comma
lone_option : schedule_options false true ≡ codes " WITH SCHEDULE OPTIONS,ignore_existing_backups"
unfolding schedule_options
lone_option = refl

construct_backup_job_statement-redacted_example :
    (construct_backup_job_statement stored_secret test_bucket (codes "shop") [] true (codes "pw")).0
    ≡ (construct_backup_job_statement other_secret test_bucket
        (codes "shop")
        []
        true
        (codes "pw")).0
construct_backup_job_statement-redacted_example =
    construct_backup_job_statement-redacted stored_secret other_secret test_bucket (codes "shop") []
      (codes "pw") (codes "other") (codes "pw") (codes "pw") (codes "pw") stored_bucket other_bucket
