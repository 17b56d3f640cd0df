-- ===== src/Controllers/Reconcile/Finalizer.antt =====
-- When the finalizer of a resource may go.
use db_operator.Base.{
  ℕ, Error, Option, none, some, is_some, true, false, ◌≡◌, ◌⊎◌, inl, inr, refl, arith, Bool-cases,
}
use db_operator.Interfaces.Kubernetes.{Object, ControllerUtil, Cluster}
use db_operator.Shared.Errors.{is_cannot_find_error}
use db_operator.Controllers.Reconcile.{
  Answer, Loaded, loaded, failed, Reconcilable, went_well, db_operator_finalizer,
  add_finalizer_to_cr, ensure_finalizer, remove_finalizer, settle, act, run, reconcile, on_remove,
  on_correct, on_create, on_gone,
}

module _ ⦃util : ControllerUtil⦄ {W : Type 0} ⦃cluster : Cluster W⦄ (rcl : Reconcilable W) where
  open util use {contains_finalizer}

  -- What the operations of a controller owe the loop. `Held` says that the resource in the API server
  -- has the finalizer, and `Gone` that the object in the database is gone.
  pub record Behaves (Held Gone : W → Type 0) : Type 0 where
    pub get-set : (o : Object) (w : W) → rcl.get_cr (rcl.set_cr o w) ≡ o
    pub load_cr_held : (w : W) → Held w → Held (rcl.load_cr w).2
    pub load_obj_held : (w : W) → Held w → Held (rcl.load_obj w).1
    pub create_obj_held : (w : W) → Held w → Held (rcl.create_obj w).2
    pub ensure_correct_held : (w : W) → Held w → Held (rcl.ensure_correct w).2
    pub remove_obj_held : (w : W) → Held w → Held (rcl.remove_obj w).2
    pub cleanup_held : (w : W) → Held w → Held (rcl.cleanup_conn w)
    pub set_cr_held : (o : Object) (w : W) → Held w → Held (rcl.set_cr o w)
    -- an update with the finalizer leaves it there
    pub update_held :
        (o : Object) (w : W)
        → contains_finalizer o db_operator_finalizer ≡ true
        → Held w
        → Held (cluster.update o w).1
    pub set_cr_gone : (o : Object) (w : W) → Gone w → Gone (rcl.set_cr o w)
    pub update_gone : (o : Object) (w : W) → Gone w → Gone (cluster.update o w).1
    pub cleanup_gone : (w : W) → Gone w → Gone (rcl.cleanup_conn w)
    -- `LoadObj` tells the truth, and a parent that is not found took the object along
    pub absent_gone : (w : W) → (rcl.load_obj w).0 ≡ loaded false → Gone (rcl.load_obj w).1
    pub parentless_gone :
        (w : W) (e : Error)
        → (rcl.load_obj w).0 ≡ failed e
        → is_cannot_find_error e ≡ true
        → Gone (rcl.load_obj w).1
    -- a removal that succeeds and asks for no other run is complete
    pub removed_gone :
        (w : W)
        → went_well (rcl.remove_obj w).0 (rcl.remove_obj w).1 ≡ true
        → Gone (rcl.remove_obj w).2

  module _ (Held Gone : W → Type 0) (behaves : Behaves Held Gone) where
    abbrev Safe : W → Type 0
    Safe w = Held w ⊎ Gone w

    remove_finalizer-Gone : (w : W) → Gone w → Gone (remove_finalizer rcl w).1
    unfolding remove_finalizer
    remove_finalizer-Gone w gone = behaves.update_gone _ _ (behaves.set_cr_gone _ w gone)

    ensure_finalizer-Held : (w : W) → Held w → Held (ensure_finalizer rcl w).2
    unfolding ensure_finalizer add_finalizer_to_cr
    ensure_finalizer-Held w held =
        elim (Bool-cases (contains_finalizer (rcl.get_cr w) db_operator_finalizer)) [
          | inl has ↦ rw has held
          | inr lacks ↦ rw lacks (
              behaves.update_held _ _
                (rw behaves.get-set (util.contains-add (rcl.get_cr w) db_operator_finalizer))
                (behaves.set_cr_held _ w held))
        ]

    on_remove-Safe : (w : W) → Held w → Safe (on_remove rcl w).2
    unfolding on_remove
    on_remove-Safe w held =
        elim (Bool-cases (contains_finalizer (rcl.get_cr w) db_operator_finalizer)) [
          | inl has ↦
              rw has (elim (Bool-cases (went_well (rcl.remove_obj w).0 (rcl.remove_obj w).1)) [
                | inl well ↦ rw well (inr (remove_finalizer-Gone _ (behaves.removed_gone w well)))
                | inr ill ↦ rw ill (inl (behaves.remove_obj_held w held))
              ])
          | inr lacks ↦ rw lacks (inl held)
        ]

    on_correct-Held : (w : W) → Held w → Held (on_correct rcl w).2
    unfolding on_correct
    on_correct-Held w held =
        let kept = behaves.ensure_correct_held w held in
        elim (Bool-cases (went_well (rcl.ensure_correct w).0 (rcl.ensure_correct w).1)) [
          | inl well ↦
              rw well
                (elim (Bool-cases (is_some (ensure_finalizer rcl (rcl.ensure_correct w).2).1)) [
                  | inl bad ↦ rw bad (ensure_finalizer-Held _ kept)
                  | inr good ↦ rw good (ensure_finalizer-Held _ kept)
                ])
          | inr ill ↦ rw ill kept
        ]

    on_create-Held : (w : W) → Held w → Held (on_create rcl w).2
    unfolding on_create
    on_create-Held w held =
        let kept = behaves.create_obj_held w held in
        elim (Bool-cases (went_well (rcl.create_obj w).0 (rcl.create_obj w).1)) [
          | inl well ↦ rw well (ensure_finalizer-Held _ kept)
          | inr ill ↦ rw ill kept
        ]

    settle-world : (deletion : Option ℕ) (a : Answer W) → (settle rcl deletion a).1 ≡ a.2
    unfolding settle
    settle-world deletion (res, none, w) = refl
    settle-world deletion (res, some e, w) = ground arith

    act-Safe :
        (deletion : Option ℕ) (found : Loaded) (w : W)
        → Held w
        → (found ≡ loaded false → Gone w)
        → ((e : Error) → found ≡ failed e → is_cannot_find_error e ≡ true → Gone w)
        → Safe (act rcl deletion (found, w)).1
    unfolding act
    act-Safe (some d) (loaded true) w held absent orphan =
        rw (settle-world (some d) (on_remove rcl w)) (on_remove-Safe w held)
    act-Safe none (loaded true) w held absent orphan =
        rw (settle-world none (on_correct rcl w)) (inl (on_correct-Held w held))
    act-Safe (some d) (loaded false) w held absent orphan =
        rw (settle-world (some d) (on_gone rcl w))
          (inr (unfold on_gone in remove_finalizer-Gone w (absent refl)))
    act-Safe none (loaded false) w held absent orphan =
        rw (settle-world none (on_create rcl w)) (inl (on_create-Held w held))
    act-Safe none (failed e) w held absent orphan = inl held
    act-Safe (some d) (failed e) w held absent orphan = elim (Bool-cases (is_cannot_find_error e)) [
      | inl missing ↦ rw missing (inr (remove_finalizer-Gone w (orphan e refl missing)))
      | inr other ↦ rw other (inl held)
    ]

    -- Suppose that no operation of a controller, as it succeeds or fails, takes the finalizer out of
    -- the stored resource, that an update with the finalizer leaves it there, that `LoadObj` reports
    -- the object as absent, or its parent as not found, only when the object is gone, that a removal
    -- which succeeds and asks for no other run is complete, and that the writing of the resource
    -- brings nothing back. Then a resource that has the finalizer before a reconciliation still has it
    -- afterwards, or its object is gone.
    pub reconcile-keeps_finalizer :
        (w : W) → Held w → Held (reconcile rcl w).1 ⊎ Gone (reconcile rcl w).1
    unfolding reconcile run
    reconcile-keeps_finalizer w held =
        let loaded_held = behaves.load_cr_held w held in
        let w' = (rcl.load_cr w).2 in
        elim (Bool-cases (is_some (rcl.load_cr w).1)) [
          | inl bad ↦ rw bad (inl loaded_held)
          | inr good ↦ rw good (elim (Bool-cases (rcl.load_cr w).0.requeue) [
            | inl again ↦ rw again (inl loaded_held)
            | inr once ↦ rw once (
                clean _ (
                  act-Safe _ (rcl.load_obj w').0 (rcl.load_obj w').1
                    (behaves.load_obj_held w' loaded_held) (behaves.absent_gone w')
                    (behaves.parentless_gone w')))
          ])
        ]
      where
        clean : (w : W) → Safe w → Safe (rcl.cleanup_conn w)
        clean w (inl h) = inl (behaves.cleanup_held w h)
        clean w (inr g) = inr (behaves.cleanup_gone w g)
