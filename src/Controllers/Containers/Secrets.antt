-- ===== src/Controllers/Containers/Secrets.antt =====
-- Where the secrets of the containers come from.
use db_operator.Base.{Text, text_eq, codes, is_empty, Option, some, false, ◌≡◌, refl}
use db_operator.Base.Maps.{lookup}
use db_operator.Controllers.Containers.{
  S3Storage, value, secret_key_ref, s3_env, get_bucket_storage_info,
}

module _ (s : S3Storage) (name : Option Text) where
  -- the two ways in which a storage is used, for jobs in containers and for CockroachDB
  pub s3_env-bucket :
      (lookup (codes "S3_BUCKET_NAME") (s3_env s name)
        ≡ some (value (get_bucket_storage_info s).bucket_name))
      × (lookup (codes "S3_PREFIX") (s3_env s name)
          ≡ some (value (get_bucket_storage_info s).prefix))
  unfolding s3_env get_bucket_storage_info lookup text_eq
  s3_env-bucket = (refl, refl)

  -- Where a storage has an access key: the containers of a job and the statements of CockroachDB use
  -- the same key, and the same entry of the same secret.
  pub s3_env-secret :
      is_empty s.acces_key_id ≡ false
      → (lookup (codes "AWS_ACCESS_KEY_ID") (s3_env s name)
          ≡ some (value (get_bucket_storage_info s).key_name))
        × (lookup (codes "AWS_SECRET_ACCESS_KEY") (s3_env s name)
            ≡ some (
                secret_key_ref
                  (get_bucket_storage_info s).k8s_secret
                  (get_bucket_storage_info s).k8s_secret_key))
  unfolding s3_env get_bucket_storage_info lookup text_eq
  s3_env-secret keyed = rw keyed (refl, refl)
