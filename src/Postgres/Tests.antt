-- ===== src/Postgres/Tests.antt =====
-- A server whose state is the list of privileges of one user, and the runs on it.
mod Certificates
mod Backups
mod Entries
mod Users
mod Databases
use db_operator.Base.{
  keep, external, Error, Text, codes, text_eq, member, member-append, SameSet, Result, ok, err,
  panic, List, [], ◌∷◌, ◌++◌, map, Option, none, some, Bool, true, false, not, ◌&&◌, ◌≡◌, refl,
  arith, is_some, All, contains_byte, has_prefix, has_suffix, if◌then◌else◌,
}
use db_operator.Base.Exec.{Exec, pure}
use db_operator.Interfaces.Funk.{reference_funk, without, member-without}
use db_operator.Interfaces.Pq.{reference_pq}
use db_operator.Interfaces.Sql.{Sql}
use db_operator.Api.{DbPriv}
use db_operator.Postgres.Reconciler.{diff_priv_set, adjust_privs, PrivsReconciler, reconcile_privs}
use db_operator.Postgres.Reconciler.Reports.{
  Failed, surplus, missing, reconcile_privs-unchanged, reconcile_privs-Failed,
}

abbrev privs_db : Sql
privs_db = record {
  Conn = Unit {0};
  World = List Text;
  Value = Text;
  query = λ c q args w. (ok [], w);
  exec = λ c q args w. (ok tt, w);
  scan_string = λ v. some (some v);
  scan_int = λ v. none;
  scan_bool = λ v. none;
  scan_array = λ v. none;
  as_bool = λ v. if text_eq v (codes "t") then some true else some false;
  query_table = λ c q args w. (ok [], w);
}

abbrev database_entry : DbPriv
database_entry = record {
  scope = codes "shop";
  privs = codes "ALL";
  default_privs = [];
  priv_type = codes "database";
  grantor = none;
}

abbrev wanted : List Text
wanted = codes "CREATE" ∷ codes "CONNECT" ∷ []

abbrev held : List Text
held = codes "TEMPORARY" ∷ codes "CONNECT" ∷ []

abbrev shop : PrivsReconciler privs_db
shop = record {
  db_priv = database_entry;
  desired_priv_set = wanted;
  user_name = codes "clerk";
  scoped_name = codes "shop";
  is_default_priv_reconciler = false;
  default_priv_object_type = [];
  conn = tt;
  grant_fun = λ c user name ps w. (ok tt, w ++ ps);
  revoke_fun = λ c user name ps w. (ok tt, without w ps);
  privs_get_fun = λ c user name w. (ok w, w);
}

shop_settled :
    reconcile_privs ⦃funk = reference_funk⦄ ⦃db = privs_db⦄ shop wanted ≡ (false, ok tt, wanted)
unfolding reconcile_privs adjust_privs diff_priv_set member text_eq keep
shop_settled = refl

reconcile_privs-unchanged_example :
    (found : List Text) × (shop.privs_get_fun tt (codes "clerk") (codes "shop") wanted
      ≡ (ok found, wanted))
    × SameSet found wanted
reconcile_privs-unchanged_example =
    reconcile_privs-unchanged ⦃funk = reference_funk⦄ ⦃db = privs_db⦄ shop wanted wanted
      shop_settled

abbrev down : Error
down = external (codes "connection refused")

-- a server that revokes nothing
abbrev stuck_shop : PrivsReconciler privs_db
stuck_shop = record shop { revoke_fun = λ c user name ps w. (err down, w) }

stuck_shop_fails :
    (reconcile_privs ⦃funk = reference_funk⦄ ⦃db = privs_db⦄ stuck_shop held).1 ≡ err down
unfolding reconcile_privs adjust_privs diff_priv_set member text_eq keep
stuck_shop_fails = refl

reconcile_privs-Failed_example :
    Failed ⦃funk = reference_funk⦄ ⦃db = privs_db⦄ stuck_shop
      (λ ps w. (err down, w))
      (λ ps w. (ok tt, w ++ ps))
      (surplus ⦃funk = reference_funk⦄ ⦃db = privs_db⦄ stuck_shop held)
      (missing ⦃funk = reference_funk⦄ ⦃db = privs_db⦄ stuck_shop held)
      down
      held
      (reconcile_privs ⦃funk = reference_funk⦄ ⦃db = privs_db⦄ stuck_shop held)
reconcile_privs-Failed_example =
    reconcile_privs-Failed ⦃funk = reference_funk⦄ ⦃db = privs_db⦄ stuck_shop held held held down
      refl stuck_shop_fails
