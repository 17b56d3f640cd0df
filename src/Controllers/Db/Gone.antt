-- ===== src/Controllers/Db/Gone.antt =====
-- When the database of a resource is gone.
use db_operator.Base.{
  ap, Bool-cases, if◌then◌else◌, Text, Error, List, Option, none, some, Bool, true, false, ◌≡◌, inl,
  inr, refl,
}
use db_operator.Interfaces.Calls.{Reply, got, refused}
use db_operator.Interfaces.Kubernetes.{Object, ControllerUtil}
use db_operator.Shared.Backoff.{no_requeue, gradual_backoff_retry}
use db_operator.Shared.Errors.{is_cannot_find_error}
use db_operator.Controllers.DbServers.{DbServer}
use db_operator.Controllers.Reconcile.{loaded, failed, went_well}
use db_operator.Controllers.Db.{
  set_object, DbCr, DbEnvironment, DbReco, after_dbs, after_connect, after_server, closed, served,
  after_drop, drop_through, find_server, notified, notify_changes,
}
use db_operator.Controllers.Db.Laws.{Laws, GoneReco}

module _ ⦃util : ControllerUtil⦄ {E Conn : Type 0} (env : DbEnvironment E Conn) where
  module _ (Held : E → Type 0) (Absent : Text → E → Type 0) (Unserved : Text → Text → E → Type 0)
      (laws : Laws env Held Absent Unserved) where
    -- the object in the database
    pub served-Gone :
        (w : DbReco E Conn) (r : Reply (List DbServer) × E)
        → (env.list_servers w.ext ≡ r)
        → (x : Error) → (served env w.cr r).0 ≡ refused x
        → is_cannot_find_error x ≡ true
        → Unserved w.cr.server w.cr.namespace (served env w.cr r).1
    served-Gone w (got servers, e) listed x h missing = rw (ap (λ r. r.1) listed) at (
        laws.list_unserved w.cr.server w.cr.namespace w.ext servers x (ap (λ r. r.0) listed) h
          missing)
    served-Gone w (refused y, e) listed x h missing =
        let found = laws.list_found w.ext y (ap (λ r. r.0) listed) in cc

    -- `LoadObj` with the database missing
    pub after_dbs-Gone :
        (w : DbReco E Conn) (c : Conn) (e : E) (r : Reply (List Text) × E)
        → env.get_dbs c e ≡ r
        → (after_dbs env w r).0 ≡ loaded false
        → Absent w.cr.db_name r.1
    after_dbs-Gone w c e (got dbs, e') asked h =
        rw (ap (λ r. r.1) asked) at
          (laws.get_dbs_absent c w.cr.db_name e dbs (ap (λ r. r.0) asked) (cc))
    after_dbs-Gone w c e (refused x, e') asked h = cc

    pub after_connect-Gone :
        (w : DbReco E Conn) (r : Reply Conn × E)
        → (after_connect env w r).0 ≡ loaded false
        → GoneReco Absent Unserved (after_connect env w r).1
    after_connect-Gone w (got conn, e) h = inr (
        inl (
          after_dbs_world conn (env.get_dbs conn e)
            (after_dbs-Gone (record w { conn = some conn }) conn e (env.get_dbs conn e) refl h)))
      where
        after_dbs_world :
            (conn : Conn) (r : Reply (List Text) × E)
            → Absent w.cr.db_name r.1
            → Absent
                (after_dbs env (record w { conn = some conn }) r).1.cr.db_name
                (after_dbs env (record w { conn = some conn }) r).1.ext
        after_dbs_world conn (got dbs, e) absent = absent
        after_dbs_world conn (refused x, e) absent = absent
    after_connect-Gone w (refused x, e) h = cc

    pub after_server-Gone :
        (w : DbReco E Conn) (r : Reply DbServer × E)
        → ((x : Error)
            → r.0 ≡ refused x
            → is_cannot_find_error x ≡ true
            → Unserved w.cr.server w.cr.namespace r.1)
        → (after_server env w r).0 ≡ loaded false
        → GoneReco Absent Unserved (after_server env w r).1
    after_server-Gone w (got server, e) unserved h = after_connect-Gone w (env.connect server e) h
    after_server-Gone w (refused x, e) unserved h = elim (Bool-cases (is_cannot_find_error x)) [
      | inl missing ↦ inr (inr (unserved x refl missing))
      | inr other ↦ cc (rw other at h)
    ]

    -- no error of `LoadObj` is a not-found error
    pub after_dbs-found :
        (w : DbReco E Conn) (c : Conn) (e : E) (r : Reply (List Text) × E) (x : Error)
        → env.get_dbs c e ≡ r
        → (after_dbs env w r).0 ≡ failed x
        → is_cannot_find_error x ≡ false
    after_dbs-found w c e (got dbs, e') x asked h = cc
    after_dbs-found w c e (refused y, e') x asked h =
        let found = laws.get_dbs_found c e y (ap (λ r. r.0) asked) in cc

    pub after_connect-found :
        (w : DbReco E Conn) (s : DbServer) (e : E) (r : Reply Conn × E) (x : Error)
        → env.connect s e ≡ r
        → (after_connect env w r).0 ≡ failed x
        → is_cannot_find_error x ≡ false
    after_connect-found w s e (got conn, e') x asked h =
        after_dbs-found (record w { conn = some conn }) conn e' (env.get_dbs conn e') x refl h
    after_connect-found w s e (refused y, e') x asked h =
        let found = laws.connect_found s e y (ap (λ r. r.0) asked) in cc

    pub after_server-found :
        (w : DbReco E Conn) (r : Reply DbServer × E) (x : Error)
        → (after_server env w r).0 ≡ failed x
        → is_cannot_find_error x ≡ false
    after_server-found w (got server, e) x h =
        after_connect-found w server e (env.connect server e) x refl h
    after_server-found w (refused y, e) x h = elim (Bool-cases (is_cannot_find_error y)) [
      | inl missing ↦ cc (rw missing at h)
      | inr other ↦ let same : failed y ≡ failed x = rw other at h in cc
    ]

    -- a removal that went well
    pub served-absent :
        (cr : DbCr) (n : Text) (r : Reply (List DbServer) × E)
        → Absent n r.1
        → Absent n (served env cr r).1
    served-absent cr n (got servers, e) absent = absent
    served-absent cr n (refused x, e) absent = absent

    pub notified-absent :
        (n : Text) (r : Reply DbServer × E) → Absent n r.1 → Absent n (notified env r)
    notified-absent n (got server, e) absent = laws.trigger_absent server n e absent
    notified-absent n (refused x, e) absent = absent

    pub notify_changes-absent :
        (w : DbReco E Conn) (n : Text) → Absent n w.ext → Absent n (notify_changes env w).ext
    unfolding notify_changes
    notify_changes-absent w n absent =
        notified-absent n (find_server env w.cr w.ext)
          (served-absent w.cr n (env.list_servers w.ext) (laws.list_absent n w.ext absent))

    pub notify_changes-cr : (w : DbReco E Conn) → (notify_changes env w).cr ≡ w.cr
    unfolding notify_changes
    notify_changes-cr w = refl

    pub after_drop-Gone :
        (w : DbReco E Conn) (r : Reply (Unit {0}) × E)
        → (r.0 ≡ got tt → Absent w.cr.db_name r.1)
        → went_well (after_drop env w r).0 (after_drop env w r).1 ≡ true
        → GoneReco Absent Unserved (after_drop env w r).2
    unfolding gradual_backoff_retry notify_changes
    after_drop-Gone w (got _, e) dropped well = inr (
        inl (
          rw (← notify_changes-cr (record w { ext = e }))
            (notify_changes-absent (record w { ext = e }) w.cr.db_name (dropped refl))))
    after_drop-Gone w (refused x, e) dropped well = cc

    pub drop_through-Gone :
        (conn : Option Conn) (w : DbReco E Conn)
        → went_well (drop_through env conn w).0 (drop_through env conn w).1 ≡ true
        → GoneReco Absent Unserved (drop_through env conn w).2
    drop_through-Gone none w well = cc
    drop_through-Gone (some conn) w well =
        after_drop-Gone w (env.drop_db conn w.cr.db_name w.cr.cascade_on_drop w.ext)
          (laws.drop_absent conn w.cr.db_name w.cr.cascade_on_drop w.ext) well

    pub removal-Gone :
        (drop : Bool) (w : DbReco E Conn)
        → w.cr.drop_on_deletion ≡ drop
        → let a =
            (if drop
              then drop_through env w.conn w
              else (no_requeue, none, notify_changes env w)) in
          went_well a.0 a.1 ≡ true → GoneReco Absent Unserved a.2
    removal-Gone true w same well = drop_through-Gone w.conn w well
    removal-Gone false w same well = inl (rw (notify_changes-cr w) same)

    pub closed-Gone :
        (conn : Option Conn) (w : DbReco E Conn)
        → GoneReco Absent Unserved w
        → GoneReco Absent Unserved (closed env conn w)
    closed-Gone none w gone = gone
    closed-Gone (some conn) w (inl keeps) = inl keeps
    closed-Gone (some conn) w (inr (inl absent)) =
        inr (inl (laws.close_absent conn w.cr.db_name w.ext absent))
    closed-Gone (some conn) w (inr (inr unserved)) =
        inr (inr (laws.close_unserved conn w.cr.server w.cr.namespace w.ext unserved))

    pub update-Gone :
        (o : Object) (w : DbReco E Conn)
        → GoneReco Absent Unserved w
        → GoneReco Absent Unserved (record w { ext = (env.update o w.ext).1 })
    update-Gone o w (inl keeps) = inl keeps
    update-Gone o w (inr (inl absent)) = inr (inl (laws.update_absent o w.cr.db_name w.ext absent))
    update-Gone o w (inr (inr unserved)) =
        inr (inr (laws.update_unserved o w.cr.server w.cr.namespace w.ext unserved))

    pub set_object-Gone :
        (o : Object) (w : DbReco E Conn)
        → GoneReco Absent Unserved w
        → GoneReco Absent Unserved (set_object env o w)
    set_object-Gone o w gone = gone
