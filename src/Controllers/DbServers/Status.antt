-- ===== src/Controllers/DbServers/Status.antt =====
-- `DbServerReconciler` of controllers/dbserver_controller.go: what the status of a server says. The
-- triggers of other controllers only ask for another run of it.
pub mod Settled
use db_operator.Base.{
  Text, codes, text_eq, sort_texts, Error, List, [], ◌∷◌, ◌++◌, Option, none, some, is_some, Bool,
  true, false, not, ◌&&◌, if◌then◌else◌, ℕ, ◌*◌,
}
use db_operator.Base.Int.{ℤ, pos}
use db_operator.Interfaces.Calls.{Reply, got, refused, Call}
use db_operator.Interfaces.Kubernetes.{Object, ControllerUtil}
use db_operator.Shared.Backoff.{CtrlResult, no_requeue, second, retry_after, gradual_backoff_retry}
use db_operator.Shared.Errors.{is_handled_err}
use db_operator.Controllers.DbServers.{DbServer}
use db_operator.Controllers.Reconcile.{db_operator_finalizer}

-- `DbServerStatus`
pub record ServerStatus : Type 0 where
  pub connection_available : Bool
  pub databases : List Text
  pub users : List Text
  pub message : Text

pub record ServerCr : Type 0 where
  pub object : Object
  pub spec : DbServer
  pub status : ServerStatus

pub record ServerEnvironment (E Conn : Type 0) : Type 0 where
  pub get_server : Call E ServerCr
  -- `GetDbConnection` without grantors and database
  pub connect : DbServer → Call E Conn
  -- the keys of the maps that `GetDbs` and `GetUsers` return, in the order of a range over them
  pub get_dbs : Conn → Call E (List Text)
  pub get_users : Conn → Call E (List Text)
  pub close : Conn → E → E
  pub update : ServerCr → E → Option Error × E
  pub update_status : ServerCr → E → Option Error × E
  pub since : ℕ → E → ℤ
  -- `err.Error()`
  pub error_text : Error → Text

abbrev pub texts_eq : List Text → List Text → Bool
texts_eq [] [] = true
texts_eq (a ∷ more) (b ∷ others) = text_eq a b && texts_eq more others
texts_eq _ _ = false

abbrev pub bool_eq : Bool → Bool → Bool
bool_eq a b = if a then b else not b

-- `reflect.DeepEqual`
unfoldable pub server_status_eq : ServerStatus → ServerStatus → Bool
server_status_eq a b =
    bool_eq a.connection_available b.connection_available
    && (texts_eq a.databases b.databases
        && (texts_eq a.users b.users && text_eq a.message b.message))

module _ ⦃util : ControllerUtil⦄ {E Conn : Type 0} (env : ServerEnvironment E Conn) where
  abbrev pub new_status : List Text → List Text → Bool → Text → ServerStatus
  new_status databases users available message = record {
    connection_available = available;
    databases = sort_texts databases;
    users = sort_texts users;
    message = message;
  }

  -- with a new finalizer the whole resource is updated, and else a status that differs
  unfoldable pub set_status : ServerCr → ServerStatus → E → Option Error × E
  unfolding server_status_eq
  set_status cr status e =
      let finalized = util.add_finalizer cr.object db_operator_finalizer in
      if util.contains_finalizer cr.object db_operator_finalizer
      then (if server_status_eq cr.status status
          then (none, e)
          else env.update_status (record cr { status = status }) e)
      else env.update (record cr { object = finalized; status = status }) e

  abbrev quick_retry : CtrlResult
  quick_retry = retry_after (pos (3 * second))

  -- `if err != nil { return shared.RetryAfter(3), nil }`
  abbrev pub retry_error : Option Error × E → CtrlResult × E
  retry_error (none, e) = (no_requeue, e)
  retry_error (some x, e) = (quick_retry, e)

  abbrev pub success : Text
  success = codes "successfully connected to database and retrieved users and databases"

  unfoldable pub after_users : ServerCr → List Text → Reply (List Text) × E → CtrlResult × E
  unfolding set_status
  after_users cr databases (got users, e) =
      retry_error (set_status cr (new_status databases users true success) e)
  after_users cr databases (refused x, e) = retry_error (
      set_status cr
        (new_status databases [] false (codes "Failed reading users: " ++ env.error_text x)) e)

  unfoldable pub after_dbs : ServerCr → Conn → Reply (List Text) × E → CtrlResult × E
  unfolding set_status after_users
  after_dbs cr conn (got databases, e) = after_users cr databases (env.get_users conn e)
  after_dbs cr conn (refused x, e) = (
    quick_retry,
    (set_status cr (new_status [] [] false (codes "Failed reading databases: " ++ env.error_text x))
        e).1,
  )

  -- the deferred `conn.Close()`
  abbrev closed : Conn → CtrlResult × E → CtrlResult × E
  closed conn (res, e) = (res, env.close conn e)

  -- the message of a connection that cannot be made is written after the status was stored
  unfoldable pub after_connect : ServerCr → Reply Conn × E → CtrlResult × E
  unfolding set_status after_dbs
  after_connect cr (got conn, e) = closed conn (after_dbs cr conn (env.get_dbs conn e))
  after_connect cr (refused x, e) =
      let e' = (set_status cr (new_status [] [] false []) e).1 in
      (gradual_backoff_retry (env.since cr.object.creation_timestamp e'), e')

  abbrev without_finalizer : ServerCr → ServerCr
  without_finalizer cr = record cr {
    object = util.remove_finalizer cr.object db_operator_finalizer;
  }

  unfoldable pub after_get : Reply ServerCr × E → CtrlResult × E
  unfolding after_connect
  after_get (got cr, e) =
      if is_some cr.object.deletion_timestamp
      then retry_error (env.update (without_finalizer cr) e)
      else after_connect cr (env.connect cr.spec e)
  after_get (refused x, e) = (no_requeue, e)

  unfoldable pub reconcile_server : E → CtrlResult × E
  unfolding after_get
  reconcile_server e = after_get (env.get_server e)
