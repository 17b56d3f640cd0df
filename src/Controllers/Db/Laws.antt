-- ===== src/Controllers/Db/Laws.antt =====
-- What the calls of the database controller owe, and what is then kept.
use db_operator.Base.{Text, member, Error, List, Option, Bool, true, false, ◌≡◌, ◌⊎◌}
use db_operator.Interfaces.Calls.{got, refused, reply_of}
use db_operator.Interfaces.Kubernetes.{Object, ControllerUtil}
use db_operator.Shared.Errors.{is_cannot_find_error}
use db_operator.Controllers.DbServers.{DbServer, get_db_server}
use db_operator.Controllers.Reconcile.{db_operator_finalizer}
use db_operator.Controllers.Db.{DbEnvironment, DbReco}

module _ ⦃util : ControllerUtil⦄ {E Conn : Type 0} (env : DbEnvironment E Conn) where
  -- What the calls owe. `Held` says that the stored resource has the finalizer, `Absent` that the
  -- server has no database of a name, and `Unserved` that there is no server of a name to be found
  -- from a namespace.
  pub record Laws (Held : E → Type 0) (Absent : Text → E → Type 0)
      (Unserved : Text → Text → E → Type 0) : Type 0 where
    pub get_db_held : (e : E) → Held e → Held (env.get_db e).1
    pub list_held : (e : E) → Held e → Held (env.list_servers e).1
    pub connect_held : (s : DbServer) (e : E) → Held e → Held (env.connect s e).1
    pub get_dbs_held : (c : Conn) (e : E) → Held e → Held (env.get_dbs c e).1
    pub create_held : (c : Conn) (n : Text) (e : E) → Held e → Held (env.create_db c n e).1
    pub execute_held :
        (c : Conn) (q : Text) (u : Option Text) (e : E) → Held e → Held (env.execute c q u e).1
    pub drop_held : (c : Conn) (n : Text) (b : Bool) (e : E) → Held e → Held (env.drop_db c n b e).1
    pub close_held : (c : Conn) (e : E) → Held e → Held (env.close c e)
    pub trigger_held : (s : DbServer) (e : E) → Held e → Held (env.trigger s e)
    pub update_held :
        (o : Object) (e : E)
        → util.contains_finalizer o db_operator_finalizer ≡ true
        → Held e
        → Held (env.update o e).1
    -- what is gone stays gone
    pub update_absent : (o : Object) (n : Text) (e : E) → Absent n e → Absent n (env.update o e).1
    pub close_absent : (c : Conn) (n : Text) (e : E) → Absent n e → Absent n (env.close c e)
    pub list_absent : (n : Text) (e : E) → Absent n e → Absent n (env.list_servers e).1
    pub trigger_absent : (s : DbServer) (n : Text) (e : E) → Absent n e → Absent n (env.trigger s e)
    pub update_unserved :
        (o : Object) (n ns : Text) (e : E) → Unserved n ns e → Unserved n ns (env.update o e).1
    pub close_unserved :
        (c : Conn) (n ns : Text) (e : E) → Unserved n ns e → Unserved n ns (env.close c e)
    -- the lists tell the truth, and a drop without an error drops
    pub get_dbs_absent :
        (c : Conn) (n : Text) (e : E) (dbs : List Text)
        → (env.get_dbs c e).0 ≡ got dbs
        → member n dbs ≡ false
        → Absent n (env.get_dbs c e).1
    pub drop_absent :
        (c : Conn) (n : Text) (b : Bool) (e : E)
        → (env.drop_db c n b e).0 ≡ got tt
        → Absent n (env.drop_db c n b e).1
    pub list_unserved :
        (n ns : Text) (e : E) (servers : List DbServer) (x : Error)
        → (env.list_servers e).0 ≡ got servers
        → reply_of (get_db_server n ns servers) ≡ refused x
        → is_cannot_find_error x ≡ true
        → Unserved n ns (env.list_servers e).1
    pub list_found :
        (e : E) (x : Error) → (env.list_servers e).0 ≡ refused x → is_cannot_find_error x ≡ false
    pub connect_found :
        (s : DbServer) (e : E) (x : Error)
        → (env.connect s e).0 ≡ refused x
        → is_cannot_find_error x ≡ false
    pub get_dbs_found :
        (c : Conn) (e : E) (x : Error)
        → (env.get_dbs c e).0 ≡ refused x
        → is_cannot_find_error x ≡ false

module _ {E Conn : Type 0} (Held : E → Type 0) where
  abbrev pub HeldReco : DbReco E Conn → Type 0
  HeldReco w = Held w.ext

module _ {E Conn : Type 0} (Absent : Text → E → Type 0) (Unserved : Text → Text → E → Type 0) where
  -- nothing is left that the controller has to drop
  abbrev pub GoneReco : DbReco E Conn → Type 0
  GoneReco w =
      (w.cr.drop_on_deletion ≡ false)
      ⊎ (Absent w.cr.db_name w.ext ⊎ Unserved w.cr.server w.cr.namespace w.ext)
