-- ===== src/Controllers/Tests/Dbs.antt =====
-- A database on one server, whose resource is deleted.
use db_operator.Base.{
  text_eq, text_eq_iff, keep, member-keep, Text, codes, member, Error, status, List, [], ◌∷◌, none,
  some, Bool, true, false, not, ◌≡◌, ◌⊎◌, refl, arith,
}
use db_operator.Base.Int.{pos}
use db_operator.Interfaces.Calls.{Reply, got, refused, reply_of}
use db_operator.Interfaces.Kubernetes.{Object}
use db_operator.Shared.Errors.{is_cannot_find_error}
use db_operator.Controllers.DbServers.{get_db_server}
use db_operator.Controllers.Reconcile.{reconcile, db_operator_finalizer}
use db_operator.Controllers.Db.{DbCr, DbEnvironment, DbReco, db_cluster, db_reconcilable}
use db_operator.Controllers.Db.Laws.{Laws, HeldReco, GoneReco}
use db_operator.Controllers.Db.Lifetime.{reconcile-db_Lifetime, reconcile-db_again}
use db_operator.Controllers.Tests.{finalizer_util}
use db_operator.Controllers.Tests.Users.{server_in}

-- the databases of the server, and the stored resource, which may be deleted
record DbWorld : Type 0 where
  dbs : List Text
  stored : Object
  deleted : Bool

abbrev cr_of : Object → DbCr
cr_of o = record {
  object = o;
  namespace = codes "near";
  server = codes "main";
  db_name = codes "shop";
  drop_on_deletion = true;
  cascade_on_drop = false;
  after_create_sql = [];
}

abbrev read_cr : Bool → Object → Reply DbCr
read_cr true o = refused (status (codes "NotFound"))
read_cr false o = got (cr_of o)

abbrev db_environment : DbEnvironment DbWorld (Unit {0})
db_environment = record {
  get_db = λ e. (read_cr e.deleted e.stored, e);
  list_servers = λ e. (got (server_in (codes "near") ∷ []), e);
  connect = λ s e. (got tt, e);
  get_dbs = λ c e. (got e.dbs, e);
  create_db = λ c n e. (got tt, record e { dbs = n ∷ e.dbs });
  execute = λ c q u e. (got tt, e);
  drop_db = λ c n b e. (got tt, record e { dbs = keep (λ x. not (text_eq x n)) e.dbs });
  close = λ c e. e;
  trigger = λ s e. e;
  update = λ o e. (none, record e { stored = o });
  since = λ t e. pos 0;
}

abbrev DbHeld : DbWorld → Type 0
DbHeld e = member db_operator_finalizer e.stored.finalizers ≡ true

abbrev DbAbsent : Text → DbWorld → Type 0
DbAbsent n e = member n e.dbs ≡ false

-- the one server is there, in every world
abbrev DbUnserved : Text → Text → DbWorld → Type 0
DbUnserved n ns e =
    (x : Error) × (reply_of (get_db_server n ns (server_in (codes "near") ∷ [])) ≡ refused x)
    × (is_cannot_find_error x ≡ true)

dropped : (n : Text) (dbs : List Text) → member n (keep (λ x. not (text_eq x n)) dbs) ≡ false
dropped n dbs = ground (arith, member-keep (λ x. not (text_eq x n)) n dbs, text_eq_iff n n)

db_environment-Laws : Laws ⦃util = finalizer_util⦄ db_environment DbHeld DbAbsent DbUnserved
db_environment-Laws = record {
  get_db_held = λ e held. held;
  list_held = λ e held. held;
  connect_held = λ s e held. held;
  get_dbs_held = λ c e held. held;
  create_held = λ c n e held. held;
  execute_held = λ c q u e held. held;
  drop_held = λ c n b e held. held;
  close_held = λ c e held. held;
  trigger_held = λ s e held. held;
  update_held = λ o e has held. has;
  update_absent = λ o n e absent. absent;
  close_absent = λ c n e absent. absent;
  list_absent = λ n e absent. absent;
  trigger_absent = λ s n e absent. absent;
  update_unserved = λ o n ns e unserved. unserved;
  close_unserved = λ c n ns e unserved. unserved;
  get_dbs_absent = λ c n e dbs h missing. cc;
  drop_absent = λ c n b e h. dropped n e.dbs;
  list_unserved = λ n ns e servers x h none_found missing. (x, cc, missing);
  list_found = λ e x h. cc;
  connect_found = λ s e x h. cc;
  get_dbs_found = λ c e x h. cc;
}

abbrev shop_object : Object
shop_object = record {
  name = codes "shop";
  creation_timestamp = 0;
  deletion_timestamp = some 5;
  finalizers = db_operator_finalizer ∷ [];
}

abbrev shop : Bool → DbReco DbWorld (Unit {0})
shop deleted = record {
  cr = cr_of shop_object;
  conn = none;
  ext = record { dbs = codes "shop" ∷ []; stored = shop_object; deleted = deleted };
}

shop-Held : HeldReco DbHeld (shop false)
unfolding member text_eq
shop-Held = refl

reconcile-db_Lifetime_example :
    HeldReco DbHeld
      (reconcile ⦃util = finalizer_util⦄ ⦃cluster = db_cluster db_environment⦄
        (db_reconcilable db_environment)
        (shop false)).1
    ⊎ GoneReco DbAbsent DbUnserved
        (reconcile ⦃util = finalizer_util⦄ ⦃cluster = db_cluster db_environment⦄
          (db_reconcilable db_environment)
          (shop false)).1
reconcile-db_Lifetime_example =
    reconcile-db_Lifetime ⦃util = finalizer_util⦄ db_environment DbHeld DbAbsent DbUnserved
      db_environment-Laws (shop false) shop-Held

reconcile-db_again_example :
    ((reconcile ⦃util = finalizer_util⦄ ⦃cluster = db_cluster db_environment⦄
        (db_reconcilable db_environment)
        (shop true)).0.requeue
      ≡ true)
    × ((reconcile ⦃util = finalizer_util⦄ ⦃cluster = db_cluster db_environment⦄
          (db_reconcilable db_environment)
          (shop true)).1
        ≡ record (shop true) { ext = (shop true).ext })
reconcile-db_again_example =
    reconcile-db_again ⦃util = finalizer_util⦄ db_environment (shop true)
      (status (codes "NotFound")) refl
