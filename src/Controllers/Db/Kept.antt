-- ===== src/Controllers/Db/Kept.antt =====
-- Every operation of the database controller keeps the finalizer of the stored resource.
use db_operator.Base.{Bool-cases, Text, is_empty, List, Option, none, some, inl, inr}
use db_operator.Interfaces.Calls.{Reply, got, refused}
use db_operator.Interfaces.Kubernetes.{ControllerUtil}
use db_operator.Controllers.DbServers.{DbServer}
use db_operator.Controllers.Db.{
  DbCr, DbEnvironment, DbReco, remove_obj, after_get, after_dbs, after_connect, after_server,
  after_create, create_through, closed, served, after_drop, drop_through, run_after_create,
  find_server, notified, notify_changes,
}
use db_operator.Controllers.Db.Laws.{Laws, HeldReco}

module _ ⦃util : ControllerUtil⦄ {E Conn : Type 0} (env : DbEnvironment E Conn) where
  module _ (Held : E → Type 0) (Absent : Text → E → Type 0) (Unserved : Text → Text → E → Type 0)
      (laws : Laws env Held Absent Unserved) where
    pub served-Held :
        (cr : DbCr) (r : Reply (List DbServer) × E) → Held r.1 → Held (served env cr r).1
    served-Held cr (got servers, e) held = held
    served-Held cr (refused x, e) held = held

    pub notified-Held : (r : Reply DbServer × E) → Held r.1 → Held (notified env r)
    notified-Held (got server, e) held = laws.trigger_held server e held
    notified-Held (refused x, e) held = held

    pub notify_changes-Held :
        (w : DbReco E Conn) → HeldReco Held w → HeldReco Held (notify_changes env w)
    unfolding notify_changes
    notify_changes-Held w held =
        notified-Held (find_server env w.cr w.ext)
          (served-Held w.cr (env.list_servers w.ext) (laws.list_held w.ext held))

    pub after_dbs-Held :
        (w : DbReco E Conn) (r : Reply (List Text) × E)
        → Held r.1
        → HeldReco Held (after_dbs env w r).1
    after_dbs-Held w (got dbs, e) held = held
    after_dbs-Held w (refused x, e) held = held

    pub after_connect-Held :
        (w : DbReco E Conn) (r : Reply Conn × E)
        → Held r.1
        → HeldReco Held (after_connect env w r).1
    after_connect-Held w (got conn, e) held =
        after_dbs-Held (record w { conn = some conn }) (env.get_dbs conn e)
          (laws.get_dbs_held conn e held)
    after_connect-Held w (refused x, e) held = held

    pub after_server-Held :
        (w : DbReco E Conn) (r : Reply DbServer × E)
        → Held r.1
        → HeldReco Held (after_server env w r).1
    after_server-Held w (got server, e) held =
        after_connect-Held w (env.connect server e) (laws.connect_held server e held)
    after_server-Held w (refused x, e) held = held

    pub after_get-Held :
        (w : DbReco E Conn) (r : Reply DbCr × E) → Held r.1 → HeldReco Held (after_get env w r).2
    after_get-Held w (got cr, e) held = held
    after_get-Held w (refused x, e) held = held

    pub run_after_create-Held :
        (conn : Conn) (w : DbReco E Conn)
        → HeldReco Held w
        → HeldReco Held (run_after_create env conn w)
    run_after_create-Held conn w held = elim (Bool-cases (is_empty w.cr.after_create_sql)) [
      | inl blank ↦ rw blank held
      | inr sql ↦ rw sql (laws.execute_held conn w.cr.after_create_sql none w.ext held)
    ]

    pub after_create-Held :
        (conn : Conn) (w : DbReco E Conn) (r : Reply (Unit {0}) × E)
        → Held r.1
        → HeldReco Held (after_create env conn w r).2
    after_create-Held conn w (got _, e) held =
        run_after_create-Held conn (notify_changes env (record w { ext = e }))
          (notify_changes-Held (record w { ext = e }) held)
    after_create-Held conn w (refused x, e) held = held

    pub create_through-Held :
        (conn : Option Conn) (w : DbReco E Conn)
        → HeldReco Held w
        → HeldReco Held (create_through env conn w).2
    create_through-Held none w held = held
    create_through-Held (some conn) w held =
        after_create-Held conn w (env.create_db conn w.cr.db_name w.ext)
          (laws.create_held conn w.cr.db_name w.ext held)

    pub after_drop-Held :
        (w : DbReco E Conn) (r : Reply (Unit {0}) × E)
        → Held r.1
        → HeldReco Held (after_drop env w r).2
    after_drop-Held w (got _, e) held = notify_changes-Held (record w { ext = e }) held
    after_drop-Held w (refused x, e) held = held

    pub drop_through-Held :
        (conn : Option Conn) (w : DbReco E Conn)
        → HeldReco Held w
        → HeldReco Held (drop_through env conn w).2
    drop_through-Held none w held = held
    drop_through-Held (some conn) w held =
        after_drop-Held w (env.drop_db conn w.cr.db_name w.cr.cascade_on_drop w.ext)
          (laws.drop_held conn w.cr.db_name w.cr.cascade_on_drop w.ext held)

    pub remove_obj-Held : (w : DbReco E Conn) → HeldReco Held w → HeldReco Held (remove_obj env w).2
    unfolding remove_obj
    remove_obj-Held w held = elim (Bool-cases w.cr.drop_on_deletion) [
      | inl drops ↦ simp drops (drop_through-Held w.conn w held)
      | inr keeps ↦ simp keeps (notify_changes-Held w held)
    ]

    pub closed-Held :
        (conn : Option Conn) (w : DbReco E Conn)
        → HeldReco Held w
        → HeldReco Held (closed env conn w)
    closed-Held none w held = held
    closed-Held (some conn) w held = laws.close_held conn w.ext held
