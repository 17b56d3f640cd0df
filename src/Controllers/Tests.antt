-- ===== src/Controllers/Tests.antt =====
-- A controller of one database object, and reconciliations with it.
mod Users
mod Dbs
mod Backups
mod Schemas
mod Jobs
mod CronJobs
mod Servers
mod Grantors
use db_operator.Base.{
  if◌then◌else◌, Text, codes, text_eq, text_eq_iff, member, keep, member-keep, status, List, [],
  ◌∷◌, Option, none, some, Bool, true, false, not, ◌≡◌, ◌⊎◌, refl, arith, ℕ,
}
use db_operator.Base.Int.{pos}
use db_operator.Interfaces.Kubernetes.{Object, ControllerUtil, Cluster}
use db_operator.Shared.Backoff.{no_requeue}
use db_operator.Shared.Errors.{is_cannot_find_error}
use db_operator.Controllers.Reconcile.{
  add_finalizer_to_cr, settle, on_remove, ensure_finalizer, act, on_create, run, loaded, failed,
  Reconcilable, reconcile, remove_finalizer, db_operator_finalizer,
}
use db_operator.Controllers.Reconcile.Finalizer.{Behaves, reconcile-keeps_finalizer}
use db_operator.Controllers.Reconcile.Retry.{
  answer, Quiet, reconcile-no_lost_error, reconcile-orphan,
}
use db_operator.Controllers.Reconcile.Attached.{Stores, reconcile-attached}

-- the controller's copy of the resource, the API server's, and whether the object exists
record World : Type 0 where
  copy : Object
  stored : Object
  exists : Bool

pub contains-remove_one :
    (xs : List Text) (f : Text) → member f (keep (λ x. not (text_eq x f)) xs) ≡ false
contains-remove_one xs f =
    ground (arith, member-keep (λ x. not (text_eq x f)) f xs, text_eq_iff f f)

pub contains-add_one : (xs : List Text) (f : Text) → member f (f ∷ xs) ≡ true
unfolding member
contains-add_one xs f = ground (arith, text_eq_iff f f)

abbrev pub finalizer_util : ControllerUtil
finalizer_util = record {
  contains_finalizer = λ o f. member f o.finalizers;
  add_finalizer = λ o f. record o { finalizers = f ∷ o.finalizers };
  remove_finalizer = λ o f. record o { finalizers = keep (λ x. not (text_eq x f)) o.finalizers };
  contains-add = λ o f. contains-add_one o.finalizers f;
  contains-remove = λ o f. contains-remove_one o.finalizers f;
}

abbrev one_cluster : Cluster World
one_cluster = record {
  update = λ o w. (none, record w { stored = o; copy = o });
  since = λ t w. pos 0;
}

-- whether the parent of the object can be found
abbrev controller : Bool → Reconcilable World
controller parent = record {
  create_obj = λ w. (no_requeue, none, record w { exists = true });
  remove_obj = λ w. (no_requeue, none, record w { exists = false });
  load_cr = λ w. (no_requeue, none, record w { copy = w.stored });
  load_obj = λ w. (if parent then loaded w.exists else failed (status (codes "NotFound")), w);
  ensure_correct = λ w. (no_requeue, none, w);
  get_cr = λ w. w.copy;
  set_cr = λ o w. record w { copy = o };
  cleanup_conn = λ w. w;
}

abbrev Held : World → Type 0
Held w = member db_operator_finalizer w.stored.finalizers ≡ true

abbrev Gone : World → Type 0
Gone w = w.exists ≡ false

controller-Behaves :
    Behaves ⦃util = finalizer_util⦄ ⦃cluster = one_cluster⦄ (controller true) Held Gone
controller-Behaves = record {
  get-set = λ o w. refl;
  load_cr_held = λ w held. held;
  load_obj_held = λ w held. held;
  create_obj_held = λ w held. held;
  ensure_correct_held = λ w held. held;
  remove_obj_held = λ w held. held;
  cleanup_held = λ w held. held;
  set_cr_held = λ o w held. held;
  update_held = λ o w has held. has;
  set_cr_gone = λ o w gone. gone;
  update_gone = λ o w gone. gone;
  cleanup_gone = λ w gone. gone;
  absent_gone = λ w e. cc;
  parentless_gone = λ w e f. cc;
  removed_gone = λ w well. refl;
}

controller-Stores : Stores ⦃util = finalizer_util⦄ ⦃cluster = one_cluster⦄ (controller true) Held
controller-Stores = record {
  get-set = λ o w. refl;
  update_stores = λ w fine has. has;
  load_cr_agrees = λ w well has. has;
  load_obj_agrees = λ w agrees has. agrees has;
  create_agrees = λ w agrees has. agrees has;
  correct_agrees = λ w agrees has. agrees has;
  cleanup_held = λ w held. held;
}

abbrev resource : Option ℕ → List Text → Object
resource deleted finalizers = record {
  name = codes "shop";
  creation_timestamp = 0;
  deletion_timestamp = deleted;
  finalizers = finalizers;
}

abbrev world : Object → Bool → World
world o exists = record { copy = o; stored = o; exists = exists }

-- marked to be deleted, with its object there
abbrev leaving : World
leaving = world (resource (some 5) (db_operator_finalizer ∷ [])) true

abbrev fresh : World
fresh = world (resource none []) false

leaving-Held : Held leaving
unfolding member text_eq
leaving-Held = refl

reconcile-keeps_finalizer_example :
    Held (reconcile ⦃util = finalizer_util⦄ ⦃cluster = one_cluster⦄ (controller true) leaving).1
    ⊎ Gone (reconcile ⦃util = finalizer_util⦄ ⦃cluster = one_cluster⦄ (controller true) leaving).1
reconcile-keeps_finalizer_example =
    reconcile-keeps_finalizer ⦃util = finalizer_util⦄ ⦃cluster = one_cluster⦄ (controller true) Held
      Gone controller-Behaves leaving leaving-Held

leaving_quiet :
    (reconcile ⦃util = finalizer_util⦄ ⦃cluster = one_cluster⦄ (controller true) leaving).0.requeue
    ≡ false
unfolding reconcile run act on_remove settle remove_finalizer member text_eq
leaving_quiet = refl

reconcile-no_lost_error_example :
    Quiet ⦃util = finalizer_util⦄ ⦃cluster = one_cluster⦄
      (controller true)
      (some 5)
      (loaded true, leaving)
reconcile-no_lost_error_example =
    reconcile-no_lost_error ⦃util = finalizer_util⦄ ⦃cluster = one_cluster⦄ (controller true)
      leaving refl leaving_quiet

not_found : is_cannot_find_error (status (codes "NotFound")) ≡ true
unfolding is_cannot_find_error text_eq
not_found = refl

fresh_quiet :
    (reconcile ⦃util = finalizer_util⦄ ⦃cluster = one_cluster⦄ (controller true) fresh).0.requeue
    ≡ false
unfolding reconcile run act on_create settle ensure_finalizer add_finalizer_to_cr member text_eq
fresh_quiet = refl

fresh_fine :
    (answer ⦃util = finalizer_util⦄ ⦃cluster = one_cluster⦄ (controller true) none false fresh).1
    ≡ none
unfolding on_create ensure_finalizer add_finalizer_to_cr member text_eq
fresh_fine = refl

reconcile-attached_example :
    Held (reconcile ⦃util = finalizer_util⦄ ⦃cluster = one_cluster⦄ (controller true) fresh).1
reconcile-attached_example =
    reconcile-attached ⦃util = finalizer_util⦄ ⦃cluster = one_cluster⦄ (controller true) Held
      controller-Stores fresh false refl refl refl fresh_fine fresh_quiet
