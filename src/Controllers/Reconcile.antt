-- ===== src/Controllers/Reconcile.antt =====
-- `Reconcile` and the finalizer methods of `Reco` in controllers/reconcilable.go. A panic inside an
-- operation of a controller is caught above this loop, and is no outcome of it.
pub mod Retry
pub mod Finalizer
pub mod Attached
pub mod Created
use db_operator.Base.{
  Text, codes, Error, Option, none, some, is_some, Bool, true, false, not, ◌&&◌, if◌then◌else◌, ℕ,
  ◌*◌,
}
use db_operator.Base.Int.{pos}
use db_operator.Interfaces.Kubernetes.{Object, ControllerUtil, Cluster}
use db_operator.Shared.Backoff.{CtrlResult, no_requeue, second, retry_after, gradual_backoff_retry}
use db_operator.Shared.Errors.{is_cannot_find_error, is_handled_err}

-- a Go result `(ctrl.Result, error)` beside the world
abbrev pub Answer : Type 0 → Type 0
Answer W = CtrlResult × Option Error × W

-- a Go result `(bool, error)`
pub data Loaded : Type 0 where
  loaded : Bool → Loaded
  failed : Error → Loaded

pub record Reconcilable (W : Type 0) : Type 0 where
  pub create_obj : W → Answer W
  pub remove_obj : W → Answer W
  pub load_cr : W → Answer W
  pub load_obj : W → Loaded × W
  pub ensure_correct : W → Answer W
  -- `GetCR()` is a pointer into the controller, which the loop reads and writes through
  pub get_cr : W → Object
  pub set_cr : Object → W → W
  pub cleanup_conn : W → W

abbrev pub db_operator_finalizer : Text
db_operator_finalizer = codes "db-operator.kubemaster.com/finalizer"

-- `err == nil && !res.Requeue`
abbrev pub went_well : CtrlResult → Option Error → Bool
went_well res e = not (is_some e) && not res.requeue

module _ ⦃util : ControllerUtil⦄ {W : Type 0} ⦃cluster : Cluster W⦄ (rcl : Reconcilable W) where
  open util use {contains_finalizer}
  open rcl use {get_cr, set_cr}

  -- whether the finalizer was added
  unfoldable pub add_finalizer_to_cr : W → Bool × W
  add_finalizer_to_cr w =
      if contains_finalizer (get_cr w) db_operator_finalizer
      then (false, w)
      else (true, set_cr (util.add_finalizer (get_cr w) db_operator_finalizer) w)

  -- `rc.Client.Update(rc.Ctx, cr)`
  abbrev pub update_cr : W → Option Error × W
  update_cr w = cluster.update (get_cr w) w

  unfoldable pub ensure_finalizer : W → Answer W
  unfolding add_finalizer_to_cr
  ensure_finalizer w =
      let (changed, w') = add_finalizer_to_cr w in
      if changed
      then (let (e, w'') = update_cr w' in (no_requeue, e, w''))
      else (no_requeue, none, w')

  unfoldable pub remove_finalizer : W → Option Error × W
  remove_finalizer w = update_cr (set_cr (util.remove_finalizer (get_cr w) db_operator_finalizer) w)

  abbrev pub backoff_creation : W → CtrlResult
  backoff_creation w = gradual_backoff_retry (cluster.since (get_cr w).creation_timestamp w)

  -- the deletion timestamp is only read of an object that has one
  abbrev pub backoff_deletion : ℕ → W → CtrlResult
  backoff_deletion deleted w = gradual_backoff_retry (cluster.since deleted w)

  -- the object exists and its resource is to be deleted
  unfoldable pub on_remove : W → Answer W
  unfolding remove_finalizer
  on_remove w =
      let (res, e, w') = rcl.remove_obj w in
      if contains_finalizer (get_cr w) db_operator_finalizer
      then (if went_well res e
          then (let (e', w'') = remove_finalizer w' in (res, e', w''))
          else (res, e, w'))
      else (no_requeue, none, w)

  -- the object exists and its resource stays
  unfoldable pub on_correct : W → Answer W
  unfolding ensure_finalizer
  on_correct w =
      let (res, e, w') = rcl.ensure_correct w in
      let (res', e', w'') = ensure_finalizer w' in
      if went_well res e
      then (if is_some e' then (retry_after (pos (3 * second)), none, w'') else (res', e', w''))
      else (res, e, w')

  -- there is no object and the resource stays
  unfoldable pub on_create : W → Answer W
  unfolding ensure_finalizer
  on_create w =
      let (res, e, w') = rcl.create_obj w in
      if went_well res e then ensure_finalizer w' else (res, e, w')

  -- there is no object and the resource is to be deleted
  unfoldable pub on_gone : W → Answer W
  unfolding remove_finalizer
  on_gone w = let (e, w') = remove_finalizer w in (no_requeue, e, w')

  abbrev pub retry_time : Option ℕ → W → CtrlResult
  retry_time none w = backoff_creation w
  retry_time (some deleted) w = backoff_deletion deleted w

  -- an error that nobody has handled becomes a retry
  unfoldable pub settle : Option ℕ → Answer W → CtrlResult × W
  settle deletion (res, none, w) = (res, w)
  settle deletion (res, some e, w) =
      if is_handled_err e then (res, w) else (retry_time deletion w, w)

  -- after `LoadObj`
  unfoldable pub act : Option ℕ → Loaded × W → CtrlResult × W
  unfolding on_remove on_correct on_create on_gone settle
  act (some deleted) (loaded true, w) = settle (some deleted) (on_remove w)
  act none (loaded true, w) = settle none (on_correct w)
  act (some deleted) (loaded false, w) = settle (some deleted) (on_gone w)
  act none (loaded false, w) = settle none (on_create w)
  act (some deleted) (failed e, w) =
      if is_cannot_find_error e
      then (no_requeue, (remove_finalizer w).1)
      else (backoff_creation w, w)
  act none (failed e, w) = (backoff_creation w, w)

  -- after `LoadCR`, up to the deferred `CleanupConn`
  unfoldable pub run : W → CtrlResult × W
  unfolding act
  run w = act (get_cr w).deletion_timestamp (rcl.load_obj w)

  -- `Reconcile`, whose error is always nil
  unfoldable pub reconcile : W → CtrlResult × W
  unfolding run
  reconcile w =
      let (res, e, w') = rcl.load_cr w in
      let (res', w'') = run w' in
      if is_some e
      then (res, w')
      else if res.requeue
      then (res, w')
      else (res', rcl.cleanup_conn w'')
