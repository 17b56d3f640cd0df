-- ===== src/Controllers/Crdb/Run/Kept.antt =====
-- Reading the row of a backup, and storing its status, keep the number of backups.
use db_operator.Base.{
  ok, Option, none, some, false, Bool-cases, ◌≡◌, ◌⊎◌, inl, inr, refl, ap, ◌∙◌, ℕ, ◌≤◌,
}
use db_operator.Base.Exec.{continue-keeps}
use db_operator.Base.Int.{ℤ}
use db_operator.Interfaces.Kubernetes.{ControllerUtil}
use db_operator.Controllers.Reconcile.{db_operator_finalizer}
use db_operator.Controllers.Crdb.{Row, JobStatus, job_map_to_job_status, job_status_eq, is_zero}
use db_operator.Controllers.Crdb.Run.{
  RunReco, RunEnvironment, outside, ensure_finalizer, store_status, set_status, look_up,
  after_look_up,
}
use db_operator.Controllers.Crdb.Run.Laws.{RunLaws, Noted, Noted-same, Noted-few, zero_or_one}

module _ ⦃util : ControllerUtil⦄ {E Conn : Type 0} (env : RunEnvironment E Conn)
    (stored : E → JobStatus) (started : E → ℕ) (laws : RunLaws env stored started) where
  abbrev NotedReco : RunReco E → Type 0
  NotedReco w = Noted stored started w.ext

  pub ensure_finalizer-Noted : (w : RunReco E) → NotedReco w → NotedReco (ensure_finalizer env w).1
  ensure_finalizer-Noted w noted =
      elim (Bool-cases (util.contains_finalizer w.cr.object db_operator_finalizer)) [
        | inl has ↦ rw has noted
        | inr lacks ↦ rw lacks (
            Noted-same stored started w.ext _
              (laws.update_same (util.add_finalizer w.cr.object db_operator_finalizer) w.ext) noted)
      ]

  -- a status with a number is stored, when there is at most one backup
  pub store_status-Noted :
      (w : RunReco E)
      → started w.ext ≤ 1
      → is_zero w.cr.status.job_id ≡ false
      → NotedReco (store_status env w).1
  store_status-Noted w few named =
      let (fine, kept, count) = laws.update_status_stores w.cr w.ext in
      let after : Noted stored started (env.update_status w.cr w.ext).1 =
        one_noted (zero_or_one stored started (started w.ext) few) kept count in
      continue-keeps NotedReco (λ _. ensure_finalizer env)
        (outside env (env.update_status w.cr) w).0 (outside env (env.update_status w.cr) w).1 after
        (λ _ _. ensure_finalizer-Noted (outside env (env.update_status w.cr) w).1 after)
    where
      one_noted :
          (started w.ext ≡ 0) ⊎ (started w.ext ≡ 1)
          → stored (env.update_status w.cr w.ext).1 ≡ w.cr.status
          → started (env.update_status w.cr w.ext).1 ≡ started w.ext
          → Noted stored started (env.update_status w.cr w.ext).1
      one_noted (inl none_yet) kept count = inl (count ∙ none_yet)
      one_noted (inr one) kept count = inr (count ∙ one, rw kept named)

  pub ensure_finalizer-status : (w : RunReco E) → (ensure_finalizer env w).1.cr.status ≡ w.cr.status
  ensure_finalizer-status w =
      elim (Bool-cases (util.contains_finalizer w.cr.object db_operator_finalizer)) [
        | inl has ↦ rw has refl
        | inr lacks ↦ rw lacks refl
      ]

  pub store_status-status : (w : RunReco E) → (store_status env w).1.cr.status ≡ w.cr.status
  store_status-status w =
      let v = (outside env (env.update_status w.cr) w).1 in
      continue-keeps (λ u. u.cr.status ≡ w.cr.status) (λ _. ensure_finalizer env)
        (outside env (env.update_status w.cr) w).0 v refl (λ _ _. ensure_finalizer-status v)

  -- at most one backup, and a number in the controller's copy of the resource
  abbrev pub NamedReco : RunReco E → Type 0
  NamedReco w = NotedReco w × (is_zero w.cr.status.job_id ≡ false)

  pub set_status-Named :
      (status : JobStatus) (w : RunReco E)
      → NamedReco w
      → is_zero status.job_id ≡ false
      → NamedReco (set_status env status w).1
  unfolding set_status
  set_status-Named status w noted named = elim (Bool-cases (job_status_eq w.cr.status status)) [
    | inl same ↦ rw same noted
    | inr new ↦
        let v : RunReco E = record w { cr = record w.cr { status = status } } in
        rw new (
          store_status-Noted v (Noted-few stored started w.ext noted.0) named,
          rw (store_status-status v) named,
        )
  ]

  pub after_look_up-Named :
      (row : Option Row) (id : ℤ) (w : RunReco E)
      → is_zero id ≡ false
      → ((r : Row) (status : JobStatus)
          → row ≡ some r
          → job_map_to_job_status r ≡ ok status
          → status.job_id ≡ id)
      → NamedReco w
      → NamedReco (after_look_up env row w).1
  unfolding after_look_up
  after_look_up-Named none id w named numbered noted = noted
  after_look_up-Named (some row) id w named numbered noted =
      continue-keeps NamedReco _ (job_map_to_job_status row) w noted (λ status read.
        let kept = set_status-Named status w noted (rw (numbered row status refl read) named) in
        continue-keeps NamedReco _ (set_status env status w).0 (set_status env status w).1 kept
          (λ _ _. kept))

  pub look_up-Named :
      (id : ℤ) (w : RunReco E) → is_zero id ≡ false → NamedReco w → NamedReco (look_up env id w).1
  unfolding look_up
  look_up-Named id w named (noted, own) =
      let w₁ = (outside env env.get_pg_connection w).1 in
      let noted₁ = Noted-same stored started w.ext w₁.ext (laws.connect_same w.ext) noted in
      continue-keeps NamedReco _ (env.get_pg_connection w.ext).0 w₁ (noted₁, own)
        (λ conn connected.
          let found = env.get_backup_job_by_id conn id w₁.ext in
          let w₂ : RunReco E = record w₁ { ext = found.1 } in
          let noted₂ =
            Noted-same stored started w₁.ext w₂.ext (laws.by_id_same conn id w₁.ext) noted₁ in
          continue-keeps NamedReco _ found.0 w₂ (noted₂, own)
            (λ row asked.
              after_look_up-Named row id w₂ named
                (λ r status is read. laws.by_id_row conn id w₁.ext r status (asked ∙ ap ok is) read)
                (noted₂, own)))
