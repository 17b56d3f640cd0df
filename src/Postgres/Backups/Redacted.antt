-- ===== src/Postgres/Backups/Redacted.antt =====
-- What a redacted statement tells.
use db_operator.Base.{Text, is_empty, ok, List, true, ◌≡◌, inl, inr, refl, Bool-cases}
use db_operator.Base.Exec.{Exec}
use db_operator.Interfaces.Pq.{Pq}
use db_operator.Postgres.Backups.{
  BucketStorageInfo, get_bucket_secret, construct_backup_job_statement,
}

module _ ⦃pq : Pq⦄ {W : Type 0} (get get' : Text → Exec W (List (Text × Text))) where
  -- Two API servers that hold different secrets give one redacted statement, if both of them give a
  -- secret for the bucket: nothing of it is in the statement. The bucket has a key, or none.
  pub construct_backup_job_statement-redacted :
      (info : BucketStorageInfo) (db_name offset secret secret' : Text) (w v v' : W)
      → get_bucket_secret get info w ≡ (ok secret, v)
      → get_bucket_secret get' info w ≡ (ok secret', v')
      → (construct_backup_job_statement get info db_name offset true w).0
        ≡ (construct_backup_job_statement get' info db_name offset true w).0
  unfolding construct_backup_job_statement
  construct_backup_job_statement-redacted info db_name offset secret secret' w v v' h h' =
      elim (Bool-cases (is_empty info.key_name)) [
        | inl keyless ↦ rw keyless refl
        | inr keyed ↦ rw (keyed, h, h') refl
      ]
