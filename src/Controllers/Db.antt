-- ===== src/Controllers/Db.antt =====
-- `DbReco` of controllers/db_controller.go, with the connection that `LoadObj` opens.
pub mod Laws
pub mod Kept
pub mod Gone
pub mod Lifetime
use db_operator.Base.{
  Text, codes, member, is_empty, Error, external, List, Option, none, some, Bool, true, false,
  if◌then◌else◌, ℕ,
}
use db_operator.Base.Int.{ℤ}
use db_operator.Interfaces.Calls.{Reply, got, refused, Call, reply_of}
use db_operator.Interfaces.Kubernetes.{Object, Cluster}
use db_operator.Shared.Backoff.{CtrlResult, no_requeue, gradual_backoff_retry}
use db_operator.Shared.Errors.{is_cannot_find_error}
use db_operator.Controllers.DbServers.{DbServer, get_db_server}
use db_operator.Controllers.Reconcile.{Answer, Loaded, loaded, failed, Reconcilable}

-- the resource, with its `DbSpec`
pub record DbCr : Type 0 where
  pub object : Object
  pub namespace : Text
  pub server : Text
  pub db_name : Text
  pub drop_on_deletion : Bool
  pub cascade_on_drop : Bool
  pub after_create_sql : Text

-- what the controller calls, over the rest of the world `E`
pub record DbEnvironment (E Conn : Type 0) : Type 0 where
  -- `Client.Get` of the resource, and `Client.List` of all servers
  pub get_db : Call E DbCr
  pub list_servers : Call E (List DbServer)
  -- `GetDbConnection` without grantors and database
  pub connect : DbServer → Call E Conn
  pub get_dbs : Conn → Call E (List Text)
  pub create_db : Conn → Text → Call E (Unit {0})
  pub execute : Conn → Text → Option Text → Call E (Unit {0})
  pub drop_db : Conn → Text → Bool → Call E (Unit {0})
  pub close : Conn → E → E
  -- `TriggerDbServerReconcile`
  pub trigger : DbServer → E → E
  pub update : Object → E → Option Error × E
  pub since : ℕ → E → ℤ

-- the fields of the controller beside the rest of the world
pub record DbReco (E Conn : Type 0) : Type 0 where
  pub cr : DbCr
  pub conn : Option Conn
  pub ext : E

module _ {E Conn : Type 0} (env : DbEnvironment E Conn) where
  abbrev back_off_creation : DbReco E Conn → Answer (DbReco E Conn)
  back_off_creation w =
      (gradual_backoff_retry (env.since w.cr.object.creation_timestamp w.ext), none, w)

  abbrev pub deletion_time : Option ℕ → ℕ
  deletion_time none = 0
  deletion_time (some t) = t

  abbrev back_off_deletion : DbReco E Conn → Answer (DbReco E Conn)
  back_off_deletion w = (
    gradual_backoff_retry (env.since (deletion_time w.cr.object.deletion_timestamp) w.ext),
    none,
    w,
  )

  abbrev after_get : DbReco E Conn → Reply DbCr × E → Answer (DbReco E Conn)
  after_get w (got cr, e) = (no_requeue, none, record w { cr = cr; ext = e })
  after_get w (refused x, e) = back_off_creation (record w { ext = e })

  unfoldable pub load_cr : DbReco E Conn → Answer (DbReco E Conn)
  load_cr w = after_get w (env.get_db w.ext)

  abbrev pub served : DbCr → Reply (List DbServer) × E → Reply DbServer × E
  served cr (got servers, e) = (reply_of (get_db_server cr.server cr.namespace servers), e)
  served cr (refused x, e) = (refused x, e)

  -- `GetDbServer`
  abbrev pub find_server : DbCr → Call E DbServer
  find_server cr e = served cr (env.list_servers e)

  abbrev pub after_dbs : DbReco E Conn → Reply (List Text) × E → Loaded × DbReco E Conn
  after_dbs w (got dbs, e) = (loaded (member w.cr.db_name dbs), record w { ext = e })
  after_dbs w (refused x, e) = (failed x, record w { ext = e })

  abbrev pub after_connect : DbReco E Conn → Reply Conn × E → Loaded × DbReco E Conn
  after_connect w (got conn, e) = after_dbs (record w { conn = some conn }) (env.get_dbs conn e)
  after_connect w (refused x, e) = (failed x, record w { ext = e })

  abbrev pub after_server : DbReco E Conn → Reply DbServer × E → Loaded × DbReco E Conn
  after_server w (got server, e) = after_connect w (env.connect server e)
  after_server w (refused x, e) =
      (if is_cannot_find_error x then loaded false else failed x, record w { ext = e })

  unfoldable pub load_obj : DbReco E Conn → Loaded × DbReco E Conn
  load_obj w = after_server w (find_server w.cr w.ext)

  -- the error is logged, and nothing is sent
  abbrev pub notified : Reply DbServer × E → E
  notified (got server, e) = env.trigger server e
  notified (refused x, e) = e

  unfoldable pub notify_changes : DbReco E Conn → DbReco E Conn
  notify_changes w = record w { ext = notified (find_server w.cr w.ext) }

  -- an error of the statement is only logged
  abbrev pub run_after_create : Conn → DbReco E Conn → DbReco E Conn
  run_after_create conn w =
      if is_empty w.cr.after_create_sql
      then w
      else record w { ext = (env.execute conn w.cr.after_create_sql none w.ext).1 }

  abbrev pub after_create : Conn → DbReco E Conn → Reply (Unit {0}) × E → Answer (DbReco E Conn)
  after_create conn w (got _, e) =
      (no_requeue, none, run_after_create conn (notify_changes (record w { ext = e })))
  after_create conn w (refused x, e) = back_off_creation (record w { ext = e })

  abbrev pub create_through : Option Conn → DbReco E Conn → Answer (DbReco E Conn)
  create_through none w = back_off_creation w
  create_through (some conn) w = after_create conn w (env.create_db conn w.cr.db_name w.ext)

  unfoldable pub create_obj : DbReco E Conn → Answer (DbReco E Conn)
  create_obj w = create_through w.conn w

  abbrev pub after_drop : DbReco E Conn → Reply (Unit {0}) × E → Answer (DbReco E Conn)
  after_drop w (got _, e) = (no_requeue, none, notify_changes (record w { ext = e }))
  after_drop w (refused x, e) = back_off_deletion (record w { ext = e })

  -- the loop calls it only after `LoadObj` has found the database, through a connection
  abbrev pub drop_through : Option Conn → DbReco E Conn → Answer (DbReco E Conn)
  drop_through none w = (no_requeue, some (external (codes "nil connection")), w)
  drop_through (some conn) w =
      after_drop w (env.drop_db conn w.cr.db_name w.cr.cascade_on_drop w.ext)

  unfoldable pub remove_obj : DbReco E Conn → Answer (DbReco E Conn)
  remove_obj w =
      if w.cr.drop_on_deletion then drop_through w.conn w else (no_requeue, none, notify_changes w)

  abbrev pub closed : Option Conn → DbReco E Conn → DbReco E Conn
  closed none w = w
  closed (some conn) w = record w { ext = env.close conn w.ext }

  unfoldable pub cleanup_conn : DbReco E Conn → DbReco E Conn
  cleanup_conn w = closed w.conn w

  abbrev pub set_object : Object → DbReco E Conn → DbReco E Conn
  set_object o w = record w { cr = record w.cr { object = o } }

  -- `Client.Update` writes nothing but the object back
  abbrev pub db_cluster : Cluster (DbReco E Conn)
  db_cluster = record {
    update = λ o w. ((env.update o w.ext).0, record w { ext = (env.update o w.ext).1 });
    since = λ t w. env.since t w.ext;
  }

  abbrev pub db_reconcilable : Reconcilable (DbReco E Conn)
  db_reconcilable = record {
    create_obj = create_obj;
    remove_obj = remove_obj;
    load_cr = load_cr;
    load_obj = load_obj;
    ensure_correct = λ w. (no_requeue, none, w);
    get_cr = λ w. w.cr.object;
    set_cr = set_object;
    cleanup_conn = cleanup_conn;
  }
