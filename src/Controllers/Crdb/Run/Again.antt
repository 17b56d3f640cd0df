-- ===== src/Controllers/Crdb/Run/Again.antt =====
-- Backups whose number cannot be stored.
use db_operator.Base.{Text, Error, ok, err, true, false, ◌≡◌, refl, ap, arith, ℕ, zero, suc, ◌+◌}
use db_operator.Base.Int.{ℤ}
use db_operator.Interfaces.Kubernetes.{ControllerUtil}
use db_operator.Postgres.Backups.{BucketStorageInfo}
use db_operator.Controllers.Crdb.{is_zero}
use db_operator.Controllers.Crdb.Run.{
  RunCr, RunReco, backing_off, RunEnvironment, new_status, set_status, note_job, start_backup,
  load_cr, load_obj, load_or_create, run_once, runs,
}
use db_operator.Controllers.Crdb.Run.Laws.{job_status_eq-zero}

-- A resource without a backup on a server that answers, where the updates of the status fail. `next`
-- is what a backup does to the world.
pub record Unstorable {E Conn : Type 0} (env : RunEnvironment E Conn) (started : E → ℕ) (cr : RunCr)
    (conn : Conn) (name : Text) (info : BucketStorageInfo) (next : E → E) (x : Error) : Type 0 where
  pub no_backup : is_zero cr.status.job_id ≡ true
  pub read_cr : (e : E) → env.get_cr e ≡ (ok cr, e)
  pub connected : (e : E) → env.get_pg_connection e ≡ (ok conn, e)
  pub named : (e : E) → env.get_db_name e ≡ (ok name, e)
  pub informed : (e : E) → env.get_bucket_storage_info e ≡ (ok info, e)
  pub begun :
      (e : E)
      → (id : ℤ) × (env.create_backup_job conn name info e ≡ (ok id, next e)) × (is_zero id ≡ false)
  pub counted : (e : E) → started (next e) ≡ started e + 1
  pub unstored : (cr : RunCr) (e : E) → env.update_status cr e ≡ (err x, e)

module _ ⦃util : ControllerUtil⦄ {E Conn : Type 0} (env : RunEnvironment E Conn) (started : E → ℕ)
    (cr : RunCr) (conn : Conn) (name : Text) (info : BucketStorageInfo) (next : E → E) (x : Error)
    (laws : Unstorable env started cr conn name info next x) where
  note_job_lem :
      (id : ℤ) (e : E)
      → is_zero id ≡ false
      → (v : RunReco E) × (note_job env id (record { cr = cr; ext = e }) ≡ (ok tt, v)) × (v.ext ≡ e)
  unfolding note_job set_status
  note_job_lem id e named =
      let status = new_status env id (env.now e) in
      (
        record { cr = record cr { status = status }; ext = e },
        rw
            (
              job_status_eq-zero cr.status status laws.no_backup named,
              laws.unstored (record cr { status = status }) e,
            )
            refl,
        refl,
      )

  start_backup-ext :
      (e : E) → (backing_off env (start_backup env (record { cr = cr; ext = e }))).1.ext ≡ next e
  unfolding start_backup
  start_backup-ext e =
      let (id, begun, numbered) = laws.begun e in
      let (v, noted, same) = note_job_lem id (next e) numbered in
      simp (laws.connected, laws.named, laws.informed, begun, noted) same

  run_once-ext : (w : RunReco E) → (run_once env w).1.ext ≡ next w.ext
  unfolding run_once load_cr load_or_create load_obj
  run_once-ext w = simp (laws.read_cr, laws.no_backup) (start_backup-ext w.ext)

  -- Where the number of a backup cannot be stored in the resource, each run starts another backup.
  pub runs-again : (n : ℕ) (w : RunReco E) → started (runs env n w).ext ≡ started w.ext + n
  unfolding runs
  runs-again zero w = omega arith
  runs-again (suc n) w =
      omega
        (arith, runs-again n (run_once env w).1, ap started (run_once-ext w), laws.counted w.ext)
