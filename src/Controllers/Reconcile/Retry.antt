-- ===== src/Controllers/Reconcile/Retry.antt =====
-- Which errors of a reconciliation lead to another run, and when the finalizer is set.
use db_operator.Base.{
  Error, Option, none, some, is_some, Bool, true, false, ◌≡◌, ◌⊎◌, inl, inr, refl, arith, ℕ,
  Bool-cases,
}
use db_operator.Interfaces.Kubernetes.{ControllerUtil, Cluster}
use db_operator.Shared.Backoff.{gradual_backoff_retry}
use db_operator.Shared.Errors.{is_cannot_find_error, is_handled_err}
use db_operator.Controllers.Reconcile.{
  Answer, Loaded, loaded, failed, Reconcilable, went_well, settle, act, run, reconcile, on_remove,
  on_correct, on_create, on_gone, remove_finalizer,
}

-- no error, or one that is handled
abbrev pub no_unhandled : Option Error → Bool
no_unhandled none = true
no_unhandled (some e) = is_handled_err e

module _ ⦃util : ControllerUtil⦄ {W : Type 0} ⦃cluster : Cluster W⦄ (rcl : Reconcilable W) where
  open util use {contains_finalizer}

  -- the answer of the branch that a marked or unmarked resource takes
  abbrev pub answer : Option ℕ → Bool → W → Answer W
  answer (some deleted) true = on_remove rcl
  answer none true = on_correct rcl
  answer (some deleted) false = on_gone rcl
  answer none false = on_create rcl

  pub act-answer :
      (deletion : Option ℕ) (exists : Bool) (w : W)
      → act rcl deletion (loaded exists, w) ≡ settle rcl deletion (answer deletion exists w)
  unfolding act
  act-answer none true w = refl
  act-answer none false w = refl
  act-answer (some _) true w = refl
  act-answer (some _) false w = refl

  settle-quiet :
      (deletion : Option ℕ) (a : Answer W)
      → (settle rcl deletion a).0.requeue ≡ false
      → no_unhandled a.1 ≡ true
  unfolding settle gradual_backoff_retry
  settle-quiet deletion (res, none, w) quiet = refl
  settle-quiet none (res, some e, w) quiet = ground arith
  settle-quiet (some _) (res, some e, w) quiet = ground arith

  -- why a run may end without a next one
  abbrev pub Quiet : Option ℕ → Loaded × W → Type 0
  Quiet deletion after =
      ((exists : Bool) × (after.0 ≡ loaded exists)
        × (no_unhandled (answer deletion exists after.1).1 ≡ true))
      ⊎ ((e : Error) × (after.0 ≡ failed e)
          × (is_cannot_find_error e ≡ true)
          × (is_some deletion ≡ true))

  act-Quiet :
      (deletion : Option ℕ) (found : Loaded) (w : W)
      → (act rcl deletion (found, w)).0.requeue ≡ false
      → Quiet deletion (found, w)
  unfolding act gradual_backoff_retry
  act-Quiet deletion (loaded exists) w quiet = inl (
    exists,
    refl,
    settle-quiet deletion (answer deletion exists w) (rw (act-answer deletion exists w) at quiet),
  )
  act-Quiet none (failed e) w quiet = cc
  act-Quiet (some d) (failed e) w quiet = elim (Bool-cases (is_cannot_find_error e)) [
    | inl missing ↦ inr (e, refl, missing, refl)
    | inr other ↦ cc (rw (other, gradual_backoff_retry) at quiet)
  ]

  -- the world in which `LoadObj` is called
  abbrev pub after_load : W → W
  after_load w = (rcl.load_cr w).2

  pub reconcile-run :
      (w : W)
      → went_well (rcl.load_cr w).0 (rcl.load_cr w).1 ≡ true
      → ((reconcile rcl w).0 ≡ (run rcl (after_load w)).0)
        × ((reconcile rcl w).1 ≡ rcl.cleanup_conn (run rcl (after_load w)).1)
  unfolding reconcile
  reconcile-run w well = ground arith

  -- `LoadCR` that asks for another run ends the reconciliation
  pub reconcile-requeued :
      (w : W)
      → (rcl.load_cr w).0.requeue ≡ true
      → reconcile rcl w ≡ ((rcl.load_cr w).0, (rcl.load_cr w).2)
  unfolding reconcile
  reconcile-requeued w again = ground arith

  -- Once the resource is loaded, a reconciliation that asks for no other run has lost no error: the
  -- object was loaded, and the branch that was taken had no error or one that is already handled; or
  -- the resource is marked to be deleted and `LoadObj` reported a missing parent.
  pub reconcile-no_lost_error :
      (w : W)
      → went_well (rcl.load_cr w).0 (rcl.load_cr w).1 ≡ true
      → (reconcile rcl w).0.requeue ≡ false
      → Quiet (rcl.get_cr (after_load w)).deletion_timestamp (rcl.load_obj (after_load w))
  unfolding run
  reconcile-no_lost_error w well quiet =
      act-Quiet _ (rcl.load_obj (after_load w)).0 (rcl.load_obj (after_load w)).1
        (rw ((reconcile-run w well).0) at quiet)

  -- When the resource is marked to be deleted and its parent is missing, the error of the update that
  -- drops the finalizer is lost: the reconciliation ends in the same way whatever that update
  -- answers, and asks for no other run.
  pub reconcile-orphan :
      (w : W) (deleted : ℕ) (e : Error)
      → went_well (rcl.load_cr w).0 (rcl.load_cr w).1 ≡ true
      → (rcl.get_cr (after_load w)).deletion_timestamp ≡ some deleted
      → (rcl.load_obj (after_load w)).0 ≡ failed e
      → is_cannot_find_error e ≡ true
      → ((reconcile rcl w).0.requeue ≡ false)
        × ((reconcile rcl w).1
            ≡ rcl.cleanup_conn (remove_finalizer rcl (rcl.load_obj (after_load w)).1).1)
  unfolding run act
  reconcile-orphan w deleted e well marked orphan missing =
      ground (arith, reconcile-run w well, marked, orphan, missing)
