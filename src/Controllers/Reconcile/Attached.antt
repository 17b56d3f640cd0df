-- ===== src/Controllers/Reconcile/Attached.antt =====
-- When a reconciliation sets the finalizer.
use db_operator.Base.{
  ℕ, Option, none, some, Bool, true, false, ◌≡◌, refl, arith, Bool-cases, inl, inr,
}
use db_operator.Interfaces.Kubernetes.{Object, ControllerUtil, Cluster}
use db_operator.Shared.Backoff.{retry_after}
use db_operator.Controllers.Reconcile.{
  Answer, loaded, Reconcilable, went_well, settle, run, reconcile, on_correct, on_create,
  db_operator_finalizer, add_finalizer_to_cr, ensure_finalizer,
}
use db_operator.Controllers.Reconcile.Retry.{after_load, reconcile-run, answer, act-answer}

module _ ⦃util : ControllerUtil⦄ {W : Type 0} ⦃cluster : Cluster W⦄ (rcl : Reconcilable W) where
  open util use {contains_finalizer}

  abbrev pub HasFinalizer : W → Type 0
  HasFinalizer w = contains_finalizer (rcl.get_cr w) db_operator_finalizer ≡ true

  -- What is owed: `Held` says that the stored resource has the finalizer. A written object is read
  -- back, an update that succeeds stores the finalizer of the controller's copy, a copy that was read
  -- has no finalizer that the stored resource lacks, the operations keep that, and the closing of the
  -- connections does not write the resource.
  pub record Stores (Held : W → Type 0) : Type 0 where
    pub get-set : (o : Object) (w : W) → rcl.get_cr (rcl.set_cr o w) ≡ o
    pub update_stores :
        (w : W)
        → (cluster.update (rcl.get_cr w) w).0 ≡ none
        → HasFinalizer w
        → Held (cluster.update (rcl.get_cr w) w).1
    pub load_cr_agrees :
        (w : W)
        → went_well (rcl.load_cr w).0 (rcl.load_cr w).1 ≡ true
        → HasFinalizer (rcl.load_cr w).2
        → Held (rcl.load_cr w).2
    pub load_obj_agrees :
        (w : W)
        → (HasFinalizer w → Held w)
        → HasFinalizer (rcl.load_obj w).1
        → Held (rcl.load_obj w).1
    pub create_agrees :
        (w : W)
        → (HasFinalizer w → Held w)
        → HasFinalizer (rcl.create_obj w).2
        → Held (rcl.create_obj w).2
    pub correct_agrees :
        (w : W)
        → (HasFinalizer w → Held w)
        → HasFinalizer (rcl.ensure_correct w).2
        → Held (rcl.ensure_correct w).2
    pub cleanup_held : (w : W) → Held w → Held (rcl.cleanup_conn w)

  module _ (Held : W → Type 0) (stores : Stores Held) where
    ensure_finalizer-Held :
        (w : W)
        → (HasFinalizer w → Held w)
        → (ensure_finalizer rcl w).1 ≡ none
        → Held (ensure_finalizer rcl w).2
    unfolding ensure_finalizer add_finalizer_to_cr
    ensure_finalizer-Held w agrees fine =
        let o = rcl.get_cr w in
        elim (Bool-cases (contains_finalizer o db_operator_finalizer)) [
          | inl has ↦ rw has (agrees has)
          | inr lacks ↦ rw lacks (
              stores.update_stores _ (rw lacks at fine) (
                rw (stores.get-set (util.add_finalizer o db_operator_finalizer) w)
                  (util.contains-add o db_operator_finalizer)))
        ]

    answer-Held :
        (exists : Bool) (w : W)
        → (HasFinalizer w → Held w)
        → went_well (answer rcl none exists w).0 (answer rcl none exists w).1 ≡ true
        → Held (answer rcl none exists w).2
    unfolding on_correct on_create retry_after
    answer-Held true w agrees well =
        let step =
          ensure_finalizer-Held (rcl.ensure_correct w).2 (stores.correct_agrees w agrees) in
        ground (arith, step)
    answer-Held false w agrees well =
        let step = ensure_finalizer-Held (rcl.create_obj w).2 (stores.create_agrees w agrees) in
        ground (arith, step)

    settle-none :
        (deletion : Option ℕ) (a : Answer W) → a.1 ≡ none → settle rcl deletion a ≡ (a.0, a.2)
    unfolding settle
    settle-none deletion (res, none, w) e = refl
    settle-none deletion (res, some x, w) e = cc

    -- Where updates are stored, the resource is read as it is stored, and the operations of the
    -- controller give its copy no finalizer that is not stored: a reconciliation of a resource that is
    -- not marked to be deleted, whose branch ends without an error and which asks for no other run,
    -- leaves the finalizer in the stored resource.
    pub reconcile-attached :
        (w : W) (exists : Bool)
        → went_well (rcl.load_cr w).0 (rcl.load_cr w).1 ≡ true
        → (rcl.get_cr (after_load rcl w)).deletion_timestamp ≡ none
        → (rcl.load_obj (after_load rcl w)).0 ≡ loaded exists
        → (answer rcl none exists (rcl.load_obj (after_load rcl w)).1).1 ≡ none
        → (reconcile rcl w).0.requeue ≡ false
        → Held (reconcile rcl w).1
    unfolding run
    reconcile-attached w exists well unmarked found fine quiet =
        let (res, world) = reconcile-run rcl w well in
        let w₁ = (rcl.load_obj (after_load rcl w)).1 in
        let acted : run rcl (after_load rcl w)
            ≡ ((answer rcl none exists w₁).0, (answer rcl none exists w₁).2) =
          rw (unmarked, found, act-answer rcl none exists w₁) (settle-none none _ fine) in
        let calm : (answer rcl none exists w₁).0.requeue ≡ false = rw (res, acted) at quiet in
        let agrees = stores.load_obj_agrees (after_load rcl w) (stores.load_cr_agrees w well) in
        rw (world, acted)
          (stores.cleanup_held _ (answer-Held exists w₁ agrees (rw (fine, calm) refl)))
