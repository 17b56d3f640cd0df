-- ===== src/Controllers/Crdb/Run/Started.antt =====
-- How often a backup is started.
use db_operator.Base.{
  Result, ok, err, panic, Bool, true, false, not, Bool-cases, ◌≡◌, ◌⊎◌, inl, inr, refl, sym, ◌∙◌,
  arith, ℕ, zero, suc, ◌≤◌, if◌then◌else◌,
}
use db_operator.Base.Exec.{continue, ◌>>◌, continue-keeps}
use db_operator.Base.Int.{ℤ}
use db_operator.Interfaces.Kubernetes.{ControllerUtil}
use db_operator.Shared.Backoff.{CtrlResult, no_requeue, gradual_backoff_retry}
use db_operator.Controllers.Crdb.{JobStatus, is_zero}
use db_operator.Controllers.Crdb.Run.{
  RunCr, RunReco, RunEnvironment, backup_ended, back_off, backing_off, set_status, load_obj,
  load_cr, ensure_correct, dropping_error, new_status, note_job, start_backup, create_obj,
  load_or_create, run_once, runs, put_cr,
}
use db_operator.Controllers.Crdb.Run.Laws.{
  RunLaws, job_status_eq-zero, Noted, Noted-same, Noted-few, Noted-fresh,
}
use db_operator.Controllers.Crdb.Run.Kept.{store_status-Noted, look_up-Named}

module _ ⦃util : ControllerUtil⦄ {E Conn : Type 0} (env : RunEnvironment E Conn)
    (stored : E → JobStatus) (started : E → ℕ) (laws : RunLaws env stored started) where
  abbrev NotedReco : RunReco E → Type 0
  NotedReco w = Noted stored started w.ext

  dropping_error-Noted :
      (r : Result (Unit {0}) × RunReco E) → NotedReco r.1 → NotedReco (dropping_error env r).1
  dropping_error-Noted (ok _, w) noted = noted
  dropping_error-Noted (err e, w) noted = noted
  dropping_error-Noted (panic, w) noted = noted

  -- a first backup whose number is noted
  note_job-Noted :
      (id : ℤ) (w : RunReco E)
      → is_zero w.cr.status.job_id ≡ true
      → is_zero id ≡ false
      → started w.ext ≡ 1
      → NotedReco (note_job env id w).1
  unfolding note_job set_status
  note_job-Noted id w blank named one =
      let status = new_status env id (env.now w.ext) in
      let differ = job_status_eq-zero w.cr.status status blank named in
      dropping_error-Noted (set_status env status w) (
        rw differ (
          store_status-Noted env stored started laws
            (record w { cr = record w.cr { status = status } }) (omega (arith, one)) named))

  -- after the statement that starts a backup
  noting-Noted :
      (r : Result ℤ) (w : RunReco E)
      → is_zero w.cr.status.job_id ≡ true
      → ((id : ℤ) → r ≡ ok id → (is_zero id ≡ false) × (started w.ext ≡ 1))
      → ((id : ℤ) × (r ≡ ok id)) ⊎ (started w.ext ≡ 0)
      → NotedReco (continue (λ id. note_job env id >> back_off env) r w).1
  noting-Noted (ok id) w blank begun failed =
      let (named, one) = begun id refl in
      let kept = note_job-Noted id w blank named one in
      continue-keeps NotedReco _ (note_job env id w).0 (note_job env id w).1 kept (λ _ _. kept)
  noting-Noted (err e) w blank begun (inl (id, same)) = cc
  noting-Noted (err e) w blank begun (inr fresh) = inl fresh
  noting-Noted panic w blank begun (inl (id, same)) = cc
  noting-Noted panic w blank begun (inr fresh) = inl fresh

  start_backup-Noted :
      (w : RunReco E)
      → is_zero w.cr.status.job_id ≡ true
      → started w.ext ≡ 0
      → NotedReco (start_backup env w).1
  unfolding start_backup
  start_backup-Noted w blank fresh =
      let e₁ = (env.get_pg_connection w.ext).1 in
      let fresh₁ : started e₁ ≡ 0 = (laws.connect_same w.ext).1 ∙ fresh in
      continue-keeps NotedReco _ (env.get_pg_connection w.ext).0 (record w { ext = e₁ })
        (inl fresh₁)
        (λ conn _.
          let e₂ = (env.get_db_name e₁).1 in
          let fresh₂ : started e₂ ≡ 0 = (laws.db_name_same e₁).1 ∙ fresh₁ in
          continue-keeps NotedReco _ (env.get_db_name e₁).0 (record w { ext = e₂ }) (inl fresh₂)
            (λ name _.
              let e₃ = (env.get_bucket_storage_info e₂).1 in
              let fresh₃ : started e₃ ≡ 0 = (laws.info_same e₂).1 ∙ fresh₂ in
              continue-keeps NotedReco _ (env.get_bucket_storage_info e₂).0 (record w { ext = e₃ })
                (inl fresh₃)
                (λ info _.
                  let created = env.create_backup_job conn name info e₃ in
                  noting-Noted created.0 (record w { ext = created.1 }) blank
                    (λ id made.
                      let (named, count) = laws.create_started conn name info e₃ id made in
                      (named, omega (arith, count, fresh₃)))
                    (created_or_fresh created.0 created.1 (laws.create_failed conn name info e₃)
                      fresh₃))))
    where
      created_or_fresh :
          (r : Result ℤ) (e : E) {e₀ : E}
          → ((id : ℤ) × (r ≡ ok id)) ⊎ (started e ≡ started e₀)
          → started e₀ ≡ 0
          → ((id : ℤ) × (r ≡ ok id)) ⊎ (started e ≡ 0)
      created_or_fresh r e (inl made) fresh = inl made
      created_or_fresh r e (inr same) fresh = inr (same ∙ fresh)

  backing_off-Noted :
      (r : Result CtrlResult × RunReco E) → NotedReco r.1 → NotedReco (backing_off env r).1
  backing_off-Noted (ok res, w) noted = noted
  backing_off-Noted (err e, w) noted = noted
  backing_off-Noted (panic, w) noted = noted

  -- what is known once the resource is read
  abbrev Read : RunReco E → Type 0
  Read w = NotedReco w × (is_zero w.cr.status.job_id ≡ true → started w.ext ≡ 0)

  create_obj-Noted : (w : RunReco E) → Read w → NotedReco (create_obj env w).1
  unfolding create_obj
  create_obj-Noted w (noted, fresh) = elim (Bool-cases (is_zero w.cr.status.job_id)) [
    | inl blank ↦
        simp blank
          (backing_off-Noted (start_backup env w) (start_backup-Noted w blank (fresh blank)))
    | inr named ↦ simp named noted
  ]

  -- what the loop does with a resource that stays
  ensure_correct-Noted : (w : RunReco E) → NotedReco w → NotedReco (ensure_correct env w).1
  unfolding ensure_correct
  ensure_correct-Noted w noted = elim (Bool-cases (not (backup_ended env w.cr))) [
    | inl runs ↦ rw runs noted
    | inr ended ↦ rw ended noted
  ]

  branch-Noted :
      (exists : Bool) (w : RunReco E)
      → Read w
      → NotedReco ((if exists then ensure_correct env else create_obj env) w).1
  branch-Noted true w (noted, fresh) = ensure_correct-Noted w noted
  branch-Noted false w read = create_obj-Noted w read

  load_obj-Read : (w : RunReco E) → Read w → Read (load_obj env w).1
  unfolding load_obj
  load_obj-Read w (noted, fresh) = elim (Bool-cases (is_zero w.cr.status.job_id)) [
    | inl blank ↦ simp blank (noted, λ _. fresh blank)
    | inr named ↦ simp named (
        let (noted', own) =
          look_up-Named env stored started laws w.cr.status.job_id w named (noted, named) in
        (noted', λ zero'. cc))
  ]

  load_or_create-Noted : (w : RunReco E) → Read w → NotedReco (load_or_create env w).1
  unfolding load_or_create
  load_or_create-Noted w read =
      let after = load_obj-Read w read in
      continue-keeps NotedReco _ (load_obj env w).0 (load_obj env w).1 after.0
        (λ exists _. branch-Noted exists (load_obj env w).1 after)

  -- after the read of the resource
  abbrev reading : Result RunCr → RunReco E → Result CtrlResult × RunReco E
  reading r v = backing_off env (continue (λ cr. put_cr env cr >> λ u. (ok no_requeue, u)) r v)

  read-Noted :
      (r : Result RunCr) (v : RunReco E)
      → ((cr : RunCr) → r ≡ ok cr → cr.status ≡ stored v.ext)
      → NotedReco v
      → NotedReco
          (continue
            (λ res. if res.requeue then (λ u. (ok res, u)) else load_or_create env)
            (reading r v).0
            (reading r v).1).1
  unfolding gradual_backoff_retry
  read-Noted (ok cr) v current noted =
      load_or_create-Noted (record { cr = cr; ext = v.ext })
        (noted, λ blank. Noted-fresh stored started v.ext noted (rw (current cr refl) at blank))
  read-Noted (err e) v current noted = noted
  read-Noted panic v current noted = noted

  run_once-Noted : (w : RunReco E) → NotedReco w → NotedReco (run_once env w).1
  unfolding run_once load_cr
  run_once-Noted w noted =
      let got = env.get_cr w.ext in
      read-Noted got.0 (record w { ext = got.1 })
        (λ cr same. laws.cr_stored w.ext cr same ∙ sym (laws.get_cr_same w.ext).0)
        (Noted-same stored started w.ext got.1 (laws.get_cr_same w.ext) noted)

  -- Suppose that the resource is read as it is stored, that each update of its status goes well, that
  -- a call for a backup which returns a number has started one backup, with a number that is not zero,
  -- that such a call which fails has started none, that a job that is found by its number has that
  -- number, and that the other calls start no backup and leave the stored status, whether or not they
  -- fail. Then, from a state in which no backup was started, or one whose number is stored, at most
  -- one backup is started however often the resource is reconciled.
  pub runs-started :
      (n : ℕ) (w : RunReco E) → Noted stored started w.ext → started (runs env n w).ext ≤ 1
  unfolding runs
  runs-started zero w noted = Noted-few stored started w.ext noted
  runs-started (suc n) w noted = runs-started n (run_once env w).1 (run_once-Noted w noted)
