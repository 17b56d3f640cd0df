-- ===== src/Controllers/Crdb/Run/Laws.antt =====
-- What the calls for a backup owe, and the invariant of the backups that are started.
use db_operator.Base.{
  Text, ok, some, true, false, ◌≡◌, ◌⊎◌, inl, inr, refl, ◌∙◌, arith, ℕ, zero, suc, ◌+◌, ◌≤◌,
}
use db_operator.Base.Int.{ℤ, pos, negsuc}
use db_operator.Interfaces.Kubernetes.{Object}
use db_operator.Postgres.Backups.{BucketStorageInfo}
use db_operator.Controllers.Crdb.{
  Row, JobStatus, job_map_to_job_status, job_status_eq, is_zero, int_eq,
}
use db_operator.Controllers.Crdb.Run.{RunCr, RunEnvironment}

-- two zero-tests that differ tell two statuses apart
pub job_status_eq-zero :
    (a b : JobStatus)
    → is_zero a.job_id ≡ true
    → is_zero b.job_id ≡ false
    → job_status_eq a b ≡ false
job_status_eq-zero a b blank named = rw (int_eq-zero a.job_id b.job_id blank named) refl
  where
    int_eq-zero : (m n : ℤ) → is_zero m ≡ true → is_zero n ≡ false → int_eq m n ≡ false
    int_eq-zero (pos m) (pos n) p q = ground arith
    int_eq-zero (pos m) (negsuc n) p q = refl
    int_eq-zero (negsuc m) n p q = cc

-- What the calls owe: `stored` is the status in the API server, and `started` counts the backups. The
-- updates of the status go well, and the server gives each backup a number.
pub record RunLaws {E Conn : Type 0} (env : RunEnvironment E Conn) (stored : E → JobStatus)
    (started : E → ℕ) : Type 0 where
  pub cr_stored : (e : E) (cr : RunCr) → (env.get_cr e).0 ≡ ok cr → cr.status ≡ stored e
  pub get_cr_same :
      (e : E) → (stored (env.get_cr e).1 ≡ stored e) × (started (env.get_cr e).1 ≡ started e)
  pub connect_same :
      (e : E)
      → (stored (env.get_pg_connection e).1 ≡ stored e)
        × (started (env.get_pg_connection e).1 ≡ started e)
  pub db_name_same :
      (e : E)
      → (stored (env.get_db_name e).1 ≡ stored e) × (started (env.get_db_name e).1 ≡ started e)
  pub info_same :
      (e : E)
      → (stored (env.get_bucket_storage_info e).1 ≡ stored e)
        × (started (env.get_bucket_storage_info e).1 ≡ started e)
  pub by_id_same :
      (c : Conn) (id : ℤ) (e : E)
      → (stored (env.get_backup_job_by_id c id e).1 ≡ stored e)
        × (started (env.get_backup_job_by_id c id e).1 ≡ started e)
  pub by_id_row :
      (c : Conn) (id : ℤ) (e : E) (row : Row) (status : JobStatus)
      → (env.get_backup_job_by_id c id e).0 ≡ ok (some row)
      → job_map_to_job_status row ≡ ok status
      → status.job_id ≡ id
  pub update_same :
      (o : Object) (e : E)
      → (stored (env.update o e).1 ≡ stored e) × (started (env.update o e).1 ≡ started e)
  pub update_status_stores :
      (cr : RunCr) (e : E)
      → ((env.update_status cr e).0 ≡ ok tt)
        × (stored (env.update_status cr e).1 ≡ cr.status)
        × (started (env.update_status cr e).1 ≡ started e)
  pub create_started :
      (c : Conn) (n : Text) (i : BucketStorageInfo) (e : E) (id : ℤ)
      → (env.create_backup_job c n i e).0 ≡ ok id
      → (is_zero id ≡ false) × (started (env.create_backup_job c n i e).1 ≡ started e + 1)
  pub create_failed :
      (c : Conn) (n : Text) (i : BucketStorageInfo) (e : E)
      → ((id : ℤ) × ((env.create_backup_job c n i e).0 ≡ ok id))
        ⊎ (started (env.create_backup_job c n i e).1 ≡ started e)

module _ {E : Type 0} (stored : E → JobStatus) (started : E → ℕ) where
  -- no backup, or one whose number is stored
  abbrev pub Noted : E → Type 0
  Noted e = (started e ≡ 0) ⊎ ((started e ≡ 1) × (is_zero (stored e).job_id ≡ false))

  pub Noted-same :
      (e e' : E) → (stored e' ≡ stored e) × (started e' ≡ started e) → Noted e → Noted e'
  Noted-same e e' (same, count) (inl fresh) = inl (count ∙ fresh)
  Noted-same e e' (same, count) (inr (one, named)) = inr (count ∙ one, rw same named)

  pub zero_or_one : (n : ℕ) → n ≤ 1 → (n ≡ 0) ⊎ (n ≡ 1)
  zero_or_one zero h = inl refl
  zero_or_one (suc zero) h = inr refl
  zero_or_one (suc (suc n)) h = absurd (omega arith)

  pub Noted-few : (e : E) → Noted e → started e ≤ 1
  Noted-few e (inl fresh) = omega arith
  Noted-few e (inr (one, named)) = omega arith

  pub Noted-fresh : (e : E) → Noted e → is_zero (stored e).job_id ≡ true → started e ≡ 0
  Noted-fresh e (inl fresh) blank = fresh
  Noted-fresh e (inr (one, named)) blank = cc
