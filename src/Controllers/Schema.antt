-- ===== src/Controllers/Schema.antt =====
-- `SchemaReco` of controllers/schema_controller.go, with the connection that `LoadObj` opens.
pub mod Names
use db_operator.Base.{
  Text, codes, member, Error, external, List, [], ◌∷◌, Option, none, some, Bool, true, false, not,
  ◌&&◌, is_some, if◌then◌else◌, ℕ,
}
use db_operator.Base.Int.{ℤ}
use db_operator.Interfaces.Calls.{Reply, got, refused, Call, reply_of, error_of}
use db_operator.Interfaces.Kubernetes.{Object, ControllerUtil, Cluster}
use db_operator.Shared.Backoff.{CtrlResult, no_requeue, gradual_backoff_retry}
use db_operator.Shared.Errors.{is_cannot_find_error}
use db_operator.Controllers.DbServers.{DbServer, get_db_server}
use db_operator.Controllers.Reconcile.{
  Answer, Loaded, loaded, failed, Reconcilable, db_operator_finalizer,
}

-- the resource, with its `SchemaSpec` and `SchemaStatus`
pub record SchemaCr : Type 0 where
  pub object : Object
  pub namespace : Text
  pub server : Text
  pub db_name : Text
  pub schema_name : Text
  pub drop_on_deletion : Bool
  pub cascade_on_drop : Bool
  pub creator : Option Text
  pub created : Bool

-- what the controller calls, over the rest of the world `E`
pub record SchemaEnvironment (E Conn : Type 0) : Type 0 where
  pub get_schema : Call E SchemaCr
  -- `Client.Get` of the database resource, of which nothing is read
  pub get_db : Text → Call E (Unit {0})
  pub list_servers : Call E (List DbServer)
  pub connect : DbServer → List Text → Text → Call E Conn
  pub get_schemas : Conn → Option Text → Call E (List Text)
  pub create_schema : Conn → Text → Option Text → Call E (Unit {0})
  pub drop_schema : Conn → Text → Option Text → Bool → Call E (Unit {0})
  pub close : Conn → E → E
  pub update : Object → E → Option Error × E
  pub update_status : SchemaCr → E → Option Error × E
  pub since : ℕ → E → ℤ

pub record SchemaReco (E Conn : Type 0) : Type 0 where
  pub cr : SchemaCr
  pub conn : Option Conn
  pub ext : E

module _ ⦃util : ControllerUtil⦄ {E Conn : Type 0} (env : SchemaEnvironment E Conn) where
  abbrev back_off : SchemaReco E Conn → Answer (SchemaReco E Conn)
  back_off w = (gradual_backoff_retry (env.since w.cr.object.creation_timestamp w.ext), none, w)

  abbrev pub set_object : Object → SchemaReco E Conn → SchemaReco E Conn
  set_object o w = record w { cr = record w.cr { object = o } }

  abbrev after_update : SchemaReco E Conn → Option Error × E → Answer (SchemaReco E Conn)
  after_update w (none, e) = (no_requeue, none, record w { ext = e })
  after_update w (some x, e) = back_off (record w { ext = e })

  -- `RemoveFinalizer`, when the database went first
  abbrev drop_finalizer : SchemaReco E Conn → Answer (SchemaReco E Conn)
  drop_finalizer w =
      let o = util.remove_finalizer w.cr.object db_operator_finalizer in
      after_update (set_object o w) (env.update o w.ext)

  -- after the read of the database resource
  abbrev after_db : SchemaReco E Conn → Reply (Unit {0}) × E → Answer (SchemaReco E Conn)
  after_db w (got _, e) = (no_requeue, none, record w { ext = e })
  after_db w (refused x, e) =
      if is_some w.cr.object.deletion_timestamp
      then drop_finalizer (record w { ext = e })
      else back_off (record w { ext = e })

  abbrev after_get : SchemaReco E Conn → Reply SchemaCr × E → Answer (SchemaReco E Conn)
  after_get w (got cr, e) = after_db (record w { cr = cr; ext = e }) (env.get_db cr.db_name e)
  after_get w (refused x, e) = (no_requeue, some x, record w { ext = e })

  unfoldable pub load_cr : SchemaReco E Conn → Answer (SchemaReco E Conn)
  load_cr w = after_get w (env.get_schema w.ext)

  abbrev served : SchemaCr → Reply (List DbServer) × E → Reply DbServer × E
  served cr (got servers, e) = (reply_of (get_db_server cr.server cr.namespace servers), e)
  served cr (refused x, e) = (refused x, e)

  -- an error of the update is dropped by both callers
  unfoldable pub set_status : Bool → SchemaReco E Conn → SchemaReco E Conn
  set_status created w =
      let cr = record w.cr { created = created } in
      if (if created then w.cr.created else not w.cr.created)
      then w
      else record w { cr = cr; ext = (env.update_status cr w.ext).1 }

  abbrev mark_created : SchemaReco E Conn → SchemaReco E Conn
  unfolding set_status
  mark_created w = if not w.cr.created then set_status true w else w

  abbrev after_schemas : SchemaReco E Conn → Reply (List Text) × E → Loaded × SchemaReco E Conn
  unfolding set_status
  after_schemas w (got schemas, e) =
      let exists = member w.cr.schema_name schemas in
      (loaded exists, if exists then mark_created (record w { ext = e }) else record w { ext = e })
  after_schemas w (refused x, e) = (failed x, record w { ext = e })

  abbrev after_connect : SchemaReco E Conn → Reply Conn × E → Loaded × SchemaReco E Conn
  unfolding set_status
  after_connect w (got conn, e) =
      after_schemas (record w { conn = some conn }) (env.get_schemas conn w.cr.creator e)
  after_connect w (refused x, e) = (failed x, record w { ext = e })

  abbrev creators : Option Text → List Text
  creators none = []
  creators (some creator) = creator ∷ []

  abbrev after_server : SchemaReco E Conn → Reply DbServer × E → Loaded × SchemaReco E Conn
  unfolding set_status
  after_server w (got server, e) =
      after_connect w (env.connect server (creators w.cr.creator) w.cr.db_name e)
  after_server w (refused x, e) =
      (if is_cannot_find_error x then loaded false else failed x, record w { ext = e })

  unfoldable pub load_obj : SchemaReco E Conn → Loaded × SchemaReco E Conn
  unfolding set_status
  load_obj w = after_server w (served w.cr (env.list_servers w.ext))

  abbrev after_create : SchemaReco E Conn → Reply (Unit {0}) × E → Answer (SchemaReco E Conn)
  unfolding set_status
  after_create w (got _, e) = (no_requeue, none, mark_created (record w { ext = e }))
  after_create w (refused x, e) = back_off (record w { ext = e })

  abbrev create_through : Option Conn → SchemaReco E Conn → Answer (SchemaReco E Conn)
  unfolding set_status
  create_through none w = back_off w
  create_through (some conn) w =
      after_create w (env.create_schema conn w.cr.schema_name w.cr.creator w.ext)

  unfoldable pub create_obj : SchemaReco E Conn → Answer (SchemaReco E Conn)
  unfolding set_status
  create_obj w = create_through w.conn w

  abbrev after_drop : SchemaReco E Conn → Reply (Unit {0}) × E → Answer (SchemaReco E Conn)
  after_drop w (got _, e) = (no_requeue, none, record w { ext = e })
  after_drop w (refused x, e) = back_off (record w { ext = e })

  -- the schema that is dropped has the name of the resource; the loop calls it only after `LoadObj`
  -- has opened the connection
  abbrev drop_through : Option Conn → SchemaReco E Conn → Answer (SchemaReco E Conn)
  drop_through none w = (no_requeue, some (external (codes "nil connection")), w)
  drop_through (some conn) w =
      after_drop w (env.drop_schema conn w.cr.object.name w.cr.creator w.cr.cascade_on_drop w.ext)

  unfoldable pub remove_obj : SchemaReco E Conn → Answer (SchemaReco E Conn)
  remove_obj w = if w.cr.drop_on_deletion then drop_through w.conn w else (no_requeue, none, w)

  abbrev closed : Option Conn → SchemaReco E Conn → SchemaReco E Conn
  closed none w = w
  closed (some conn) w = record w { ext = env.close conn w.ext }

  unfoldable pub cleanup_conn : SchemaReco E Conn → SchemaReco E Conn
  cleanup_conn w = closed w.conn w

  abbrev pub schema_cluster : Cluster (SchemaReco E Conn)
  schema_cluster = record {
    update = λ o w. ((env.update o w.ext).0, record w { ext = (env.update o w.ext).1 });
    since = λ t w. env.since t w.ext;
  }

  abbrev pub schema_reconcilable : Reconcilable (SchemaReco E Conn)
  schema_reconcilable = record {
    create_obj = create_obj;
    remove_obj = remove_obj;
    load_cr = load_cr;
    load_obj = load_obj;
    ensure_correct = λ w. (no_requeue, none, w);
    get_cr = λ w. w.cr.object;
    set_cr = set_object;
    cleanup_conn = cleanup_conn;
  }
