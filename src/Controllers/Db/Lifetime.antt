-- ===== src/Controllers/Db/Lifetime.antt =====
-- How long the finalizer of a database resource stays.
use db_operator.Base.{Text, Error, true, ◌≡◌, ◌⊎◌, refl}
use db_operator.Interfaces.Calls.{Reply, got, refused}
use db_operator.Interfaces.Kubernetes.{ControllerUtil}
use db_operator.Shared.Backoff.{gradual_backoff_retry}
use db_operator.Controllers.Reconcile.{reconcile}
use db_operator.Controllers.Reconcile.Retry.{reconcile-requeued}
use db_operator.Controllers.Reconcile.Finalizer.{Behaves, reconcile-keeps_finalizer}
use db_operator.Controllers.Db.{
  DbCr, DbEnvironment, DbReco, load_cr, load_obj, create_obj, remove_obj, cleanup_conn, after_get,
  find_server, db_cluster, db_reconcilable,
}
use db_operator.Controllers.Db.Laws.{Laws, HeldReco, GoneReco}
use db_operator.Controllers.Db.Kept
use db_operator.Controllers.Db.Gone

module _ ⦃util : ControllerUtil⦄ {E Conn : Type 0} (env : DbEnvironment E Conn) where
  module _ (Held : E → Type 0) (Absent : Text → E → Type 0) (Unserved : Text → Text → E → Type 0)
      (laws : Laws env Held Absent Unserved) where
    db_reconcilable-Behaves :
        Behaves ⦃cluster = db_cluster env⦄
          (db_reconcilable env)
          (HeldReco Held)
          (GoneReco Absent Unserved)
    unfolding load_cr load_obj create_obj remove_obj cleanup_conn
    db_reconcilable-Behaves = record {
      get-set = λ o w. refl;
      load_cr_held = λ w held.
          Kept.after_get-Held env Held Absent Unserved laws w (env.get_db w.ext)
            (laws.get_db_held w.ext held);
      load_obj_held = λ w held.
          Kept.after_server-Held env Held Absent Unserved laws w (find_server env w.cr w.ext) (
            Kept.served-Held env Held Absent Unserved laws w.cr (env.list_servers w.ext)
              (laws.list_held w.ext held));
      create_obj_held =
          λ w held. Kept.create_through-Held env Held Absent Unserved laws w.conn w held;
      ensure_correct_held = λ w held. held;
      remove_obj_held = λ w held. Kept.remove_obj-Held env Held Absent Unserved laws w held;
      cleanup_held = λ w held. Kept.closed-Held env Held Absent Unserved laws w.conn w held;
      set_cr_held = λ o w held. held;
      update_held = λ o w has held. laws.update_held o w.ext has held;
      set_cr_gone = Gone.set_object-Gone env Held Absent Unserved laws;
      update_gone = Gone.update-Gone env Held Absent Unserved laws;
      cleanup_gone = λ w gone. Gone.closed-Gone env Held Absent Unserved laws w.conn w gone;
      absent_gone = λ w h.
          Gone.after_server-Gone env Held Absent Unserved laws w (find_server env w.cr w.ext)
            (λ x. Gone.served-Gone env Held Absent Unserved laws w (env.list_servers w.ext) refl x)
            h;
      parentless_gone = λ w e h missing. absurd (
          let found =
            Gone.after_server-found env Held Absent Unserved laws w (find_server env w.cr w.ext) e
              h in
          cc);
      removed_gone = λ w well.
          Gone.removal-Gone env Held Absent Unserved laws w.cr.drop_on_deletion w refl well;
    }

    -- Suppose that no call but an update takes the finalizer out of the stored resource, that the
    -- lists of servers and of databases are complete, that a drop without an error drops, that what is
    -- gone stays gone while the resource is updated, the connection is closed and the server's
    -- controller is triggered, and that a list of servers, a connection or a list of databases never
    -- fails with a not-found error. Then, whatever else the calls answer, other errors included: a
    -- database resource that has the finalizer before a reconciliation still has it afterwards, or its
    -- specification wants no drop, or the database is not on the server, or there is no server of the
    -- wanted name.
    pub reconcile-db_Lifetime :
        (w : DbReco E Conn)
        → HeldReco Held w
        → HeldReco Held (reconcile ⦃cluster = db_cluster env⦄ (db_reconcilable env) w).1
          ⊎ GoneReco Absent Unserved
              (reconcile ⦃cluster = db_cluster env⦄ (db_reconcilable env) w).1
    reconcile-db_Lifetime w held =
        reconcile-keeps_finalizer ⦃cluster = db_cluster env⦄ (db_reconcilable env) (HeldReco Held)
          (GoneReco Absent Unserved) db_reconcilable-Behaves w held

module _ ⦃util : ControllerUtil⦄ {E Conn : Type 0} (env : DbEnvironment E Conn) where
  after_get-again :
      (w : DbReco E Conn) (r : Reply DbCr × E) (x : Error)
      → r.0 ≡ refused x
      → ((after_get env w r).0.requeue ≡ true) × ((after_get env w r).2 ≡ record w { ext = r.1 })
  unfolding gradual_backoff_retry
  after_get-again w (got cr, e) x h = cc
  after_get-again w (refused y, e) x h = (refl, refl)

  -- A database resource that cannot be read is reconciled again, also when it cannot be found, as
  -- after its deletion: such a reconciliation asks for another run, and nothing but the read is done.
  pub reconcile-db_again :
      (w : DbReco E Conn) (x : Error)
      → (env.get_db w.ext).0 ≡ refused x
      → ((reconcile ⦃cluster = db_cluster env⦄ (db_reconcilable env) w).0.requeue ≡ true)
        × ((reconcile ⦃cluster = db_cluster env⦄ (db_reconcilable env) w).1
            ≡ record w { ext = (env.get_db w.ext).1 })
  unfolding load_cr
  reconcile-db_again w x h =
      let (again, left) = after_get-again w (env.get_db w.ext) x h in
      let same = reconcile-requeued ⦃cluster = db_cluster env⦄ (db_reconcilable env) w again in
      rw same (again, left)
