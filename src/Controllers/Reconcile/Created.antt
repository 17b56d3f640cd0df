-- ===== src/Controllers/Reconcile/Created.antt =====
-- A creation that reports no error.
use db_operator.Base.{if◌then◌else◌, none, some, false, ◌≡◌, refl, inl, inr, Bool-cases}
use db_operator.Interfaces.Kubernetes.{Object, ControllerUtil, Cluster}
use db_operator.Shared.Backoff.{no_requeue}
use db_operator.Controllers.Reconcile.{
  Reconcilable, Answer, loaded, db_operator_finalizer, went_well, add_finalizer_to_cr,
  ensure_finalizer, on_create, settle, act,
}

module _ ⦃util : ControllerUtil⦄ {W : Type 0} ⦃cluster : Cluster W⦄ (rcl : Reconcilable W) where
  -- an API server that accepts every update
  abbrev pub Accepting : Type 0
  Accepting = (o : Object) (v : W) → (cluster.update o v).0 ≡ none

  -- an answer without an error and without another run
  abbrev pub Quiet : Answer W → Type 0
  Quiet a = (a.0 ≡ no_requeue) × (a.1 ≡ none)

  ensure_finalizer-Quiet : Accepting → (w : W) → Quiet (ensure_finalizer rcl w)
  unfolding ensure_finalizer add_finalizer_to_cr
  ensure_finalizer-Quiet accepting w =
      elim (Bool-cases (util.contains_finalizer (rcl.get_cr w) db_operator_finalizer)) [
        | inl has ↦ rw has (refl, refl)
        | inr lacks ↦ rw lacks (refl, accepting _ _)
      ]

  after_create-Quiet :
      Accepting
      → (a : Answer W) → Quiet a
      → Quiet (if went_well a.0 a.1 then ensure_finalizer rcl a.2 else a)
  after_create-Quiet accepting (res, e, w) (no_run, fine) =
      rw (no_run, fine) (ensure_finalizer-Quiet accepting w)

  settle-Quiet : (a : Answer W) → Quiet a → (settle rcl none a).0 ≡ no_requeue
  unfolding settle
  settle-Quiet (res, none, w) (no_run, fine) = no_run
  settle-Quiet (res, some x, w) (no_run, fine) = cc

  pub act-created :
      Accepting
      → (w : W) → Quiet (rcl.create_obj w)
      → (act rcl none (loaded false, w)).0 ≡ no_requeue
  unfolding act on_create
  act-created accepting w quiet =
      settle-Quiet (on_create rcl w) (after_create-Quiet accepting (rcl.create_obj w) quiet)
