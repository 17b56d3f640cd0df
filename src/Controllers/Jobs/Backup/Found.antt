-- ===== src/Controllers/Jobs/Backup/Found.antt =====
-- The job of a backup, after it was created.
use db_operator.Base.{
  false, subst, ap, ◌∙◌, inr, sym, inl, ◌⊎◌, text_eq_refl, Error, List, [], ◌∷◌, Option, none, some,
  Bool, true, ◌≡◌, refl, ok, arith,
}
use db_operator.Interfaces.Calls.{got}
use db_operator.Interfaces.Kubernetes.{Object, ControllerUtil}
use db_operator.Controllers.Reconcile.{run, act}
use db_operator.Controllers.Reconcile.Created.{act-created}
use db_operator.Shared.Backoff.{no_requeue}
use db_operator.Controllers.Containers.{DbActions, S3Storage}
use db_operator.Controllers.Lazy.{LazyEnvironment, LazyTarget, get_storage_info_and_actions}
use db_operator.Controllers.Reconcile.{Loaded, loaded, failed}
use db_operator.Controllers.Jobs.{
  build_job, Job, JobsEnvironment, controlled_by, find_job, ensure_scripts, with_scripts,
  then_create, build_job,
}
use db_operator.Controllers.Jobs.Listed.{has_named, find_job-has_named}
use db_operator.Controllers.Jobs.Backup.{
  BackupJobCr, BackupJobReco, backup_holds, handle, load_obj, backup_job, create_with, create_obj,
  backup_cluster, backup_reconcilable,
}

-- one of the jobs
abbrev pub Among : Job → List Job → Type 0
Among job [] = ⊥
Among job (other ∷ jobs) = (job ≡ other) ⊎ Among job jobs

Among-has_named :
    (job : Job) (jobs : List Job) → Among job jobs → has_named (λ j. j.name) job.name jobs ≡ true
Among-has_named job [] none_there = elim none_there [ ]
Among-has_named job (other ∷ jobs) (inl same) =
    rw (sym same) (ground (arith, text_eq_refl job.name))
Among-has_named job (other ∷ jobs) (inr later) = ground (arith, Among-has_named job jobs later)

-- an API server that lists a job it has accepted, in its namespace and under its label
pub record JobLaws {E Cr : Type 0} (env : JobsEnvironment E Cr Job) : Type 0 where
  pub listed :
      (job : Job) (e : E) (jobs : List Job)
      → (env.create job e).0 ≡ none
      → job.labels ≡ controlled_by ∷ []
      → (env.list job.namespace controlled_by (env.create job e).1).0 ≡ got jobs
      → Among job jobs

module _ {E Conn : Type 0} (env : JobsEnvironment E BackupJobCr Job)
    (lazy : LazyEnvironment E Conn) where
  handle-loaded :
      (r : Loaded × BackupJobReco E Conn) (b : Bool)
      → r.0 ≡ loaded b
      → (handle env lazy r).0 ≡ loaded b
  handle-loaded (loaded exists, w) b h = h
  handle-loaded (failed x, w) b h = cc

  create_with-found :
      JobLaws env
      → (w : BackupJobReco E Conn) (storage : S3Storage) (actions : DbActions)
        (helper : LazyTarget E Conn) (jobs : List Job)
      → (env.create (backup_job env lazy w storage actions) helper.ext).0 ≡ none
      → (env.list w.namespace controlled_by
          (create_with env lazy w (ok (storage, actions), helper)).2.helper.ext).0
        ≡ got jobs
      → (load_obj env lazy (create_with env lazy w (ok (storage, actions), helper)).2).0
        ≡ loaded true
  unfolding load_obj build_job create_with
  create_with-found laws w storage actions helper jobs accepted h =
      let job = backup_job env lazy w storage actions in
      let after = (create_with env lazy w (ok (storage, actions), helper)).2 in
      let found = find_job-has_named (λ j. j.name) env backup_holds after jobs h in
      let there = Among-has_named job jobs (laws.listed job helper.ext jobs accepted refl h) in
      handle-loaded (find_job env (λ j. j.name) backup_holds after) true (found ∙ ap loaded there)

  -- what a backup job needs: the scripts, and a target whose storage and actions can be read
  abbrev pub Ready : BackupJobReco E Conn → S3Storage → DbActions → LazyTarget E Conn → Type 0
  Ready w storage actions helper =
      ((ensure_scripts env w.namespace w.helper.ext).0 ≡ none)
      × (get_storage_info_and_actions lazy
            (record w.helper { ext = (ensure_scripts env w.namespace w.helper.ext).1 })
          ≡ (ok (storage, actions), helper))

  after_scripts-Ready :
      (w : BackupJobReco E Conn) (r : Option Error × E) (storage : S3Storage) (actions : DbActions)
      (helper : LazyTarget E Conn)
      → r.0 ≡ none
      → get_storage_info_and_actions lazy (record w.helper { ext = r.1 })
        ≡ (ok (storage, actions), helper)
      → then_create env
          (λ job. job.name)
          backup_holds
          (λ v. create_with env lazy v (get_storage_info_and_actions lazy v.helper))
          w
          r
        ≡ create_with env lazy w (ok (storage, actions), helper)
  unfolding create_with
  after_scripts-Ready w (none, e) storage actions helper h read = rw read refl
  after_scripts-Ready w (some x, e) storage actions helper h read = cc

  pub create_obj-Ready :
      (w : BackupJobReco E Conn) (storage : S3Storage) (actions : DbActions)
      (helper : LazyTarget E Conn)
      → Ready w storage actions helper
      → create_obj env lazy w ≡ create_with env lazy w (ok (storage, actions), helper)
  unfolding create_obj with_scripts ensure_scripts
  create_obj-Ready w storage actions helper (fine, read) =
      after_scripts-Ready w (ensure_scripts env w.namespace w.helper.ext) storage actions helper
        fine read

  -- A backup job that the API server has accepted is found by `LoadObj`, where the jobs can be
  -- listed: the server lists what it has accepted, by namespace and label.
  pub create_obj-found :
      JobLaws env
      → (w : BackupJobReco E Conn) (storage : S3Storage) (actions : DbActions)
        (helper : LazyTarget E Conn) (jobs : List Job)
      → Ready w storage actions helper
      → (env.create (backup_job env lazy w storage actions) helper.ext).0 ≡ none
      → (env.list w.namespace controlled_by (create_obj env lazy w).2.helper.ext).0 ≡ got jobs
      → (load_obj env lazy (create_obj env lazy w).2).0 ≡ loaded true
  create_obj-found laws w storage actions helper jobs ready accepted h =
      let same = create_obj-Ready w storage actions helper ready in
      let listed : (env.list w.namespace controlled_by
            (create_with env lazy w (ok (storage, actions), helper)).2.helper.ext).0
          ≡ got jobs =
        subst (λ a. (env.list w.namespace controlled_by a.2.helper.ext).0 ≡ got jobs) same h in
      rw same (create_with-found laws w storage actions helper jobs accepted listed)

  create_obj-Quiet :
      (w : BackupJobReco E Conn) (storage : S3Storage) (actions : DbActions)
      (helper : LazyTarget E Conn)
      → Ready w storage actions helper
      → ((create_obj env lazy w).0 ≡ no_requeue) × ((create_obj env lazy w).1 ≡ none)
  unfolding create_with
  create_obj-Quiet w storage actions helper ready =
      rw (create_obj-Ready w storage actions helper ready) (refl, refl)

module _ ⦃util : ControllerUtil⦄ {E Conn : Type 0} (env : JobsEnvironment E BackupJobCr Job)
    (lazy : LazyEnvironment E Conn) where
  -- Whatever the API server answers to the creation of the job, an error included: where a backup job
  -- stays, has no job, and has its scripts and its target, and updates are accepted, the
  -- reconciliation asks for no other run.
  pub run-unretried :
      (w v : BackupJobReco E Conn) (storage : S3Storage) (actions : DbActions)
      (helper : LazyTarget E Conn)
      → w.cr.object.deletion_timestamp ≡ none
      → load_obj env lazy w ≡ (loaded false, v)
      → Ready env lazy v storage actions helper
      → ((o : Object) (e : E) → (env.update o e).0 ≡ none)
      → (run ⦃cluster = backup_cluster env lazy⦄ (backup_reconcilable env lazy) w).0 ≡ no_requeue
  unfolding run
  run-unretried w v storage actions helper stays missing ready accepting =
      subst
        (λ d.
          (act ⦃cluster = backup_cluster env lazy⦄ (backup_reconcilable env lazy) d
            (load_obj env lazy w)).0
          ≡ no_requeue)
        (sym stays)
        (subst
          (λ r.
            (act ⦃cluster = backup_cluster env lazy⦄ (backup_reconcilable env lazy) none r).0
            ≡ no_requeue)
          (sym missing)
          (act-created ⦃cluster = backup_cluster env lazy⦄ (backup_reconcilable env lazy)
            (λ o u. accepting o u.helper.ext) v
            (create_obj-Quiet env lazy v storage actions helper ready)))
