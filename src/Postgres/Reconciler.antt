-- ===== src/Postgres/Reconciler.antt =====
-- `PrivsReconciler` of dbservers/postgres/privs_reconciler.go.
pub mod Convergence
pub mod Reports
use db_operator.Base.{Text, Result, ok, err, panic, List, [], ◌∷◌, Bool, true, false}
use db_operator.Base.Exec.{Exec}
use db_operator.Interfaces.Funk.{Funk}
use db_operator.Interfaces.Sql.{Sql}
use db_operator.Api.{DbPriv}

unfoldable pub diff_priv_set :
    ⦃funk : Funk⦄ → List Text → List Text → List Text × List Text × List Text
diff_priv_set ⦃funk⦄ cur_privs privs =
    let (other_current, desired) = funk.difference cur_privs privs in
    (funk.inner_join cur_privs privs, other_current, desired)

-- `FoundPrivSet` is only written, and left out
pub record PrivsReconciler (db : Sql) : Type 0 where
  pub db_priv : DbPriv
  pub desired_priv_set : List Text
  pub user_name : Text
  pub scoped_name : Text
  pub is_default_priv_reconciler : Bool
  pub default_priv_object_type : Text
  pub conn : db.Conn
  pub grant_fun : db.Conn → Text → Text → List Text → Exec db.World (Unit {0})
  pub revoke_fun : db.Conn → Text → Text → List Text → Exec db.World (Unit {0})
  pub privs_get_fun : db.Conn → Text → Text → Exec db.World (List Text)

-- a Go result `(changed, err)`, beside the world that it leaves
abbrev pub Changes : Type 0 → Type 0
Changes W = Bool × Result (Unit {0}) × W

module _ {W : Type 0} where
  abbrev pub done : Bool → W → Changes W
  done changed w = (changed, ok tt, w)

  -- `if err != nil { return changed, err }; changed = true`
  abbrev pub then_changed : (Bool → W → Changes W) → Bool → Result (Unit {0}) → W → Changes W
  then_changed next changed (ok _) w = next true w
  then_changed next changed (err e) w = (changed, err e, w)
  then_changed next changed panic w = (changed, panic, w)

  -- `if len(privs) > 0 { … }`
  abbrev pub adjust : List Text → Exec W (Unit {0}) → Bool → (Bool → W → Changes W) → W → Changes W
  adjust [] act changed next w = next changed w
  adjust (p ∷ ps) act changed next w = then_changed next changed (act w).0 (act w).1

  -- `if err != nil { return false, err }`
  abbrev pub with_found : (List Text → W → Changes W) → Result (List Text) → W → Changes W
  with_found next (ok found) w = next found w
  with_found next (err e) w = (false, err e, w)
  with_found next panic w = (false, panic, w)

module _ ⦃funk : Funk⦄ ⦃db : Sql⦄ where
  -- what `ReconcilePrivs` does once it has read the current privileges
  unfoldable pub adjust_privs : PrivsReconciler db → List Text → db.World → Changes db.World
  unfolding diff_priv_set
  adjust_privs r cur_privs =
      let (_, to_revoke, to_grant) = diff_priv_set cur_privs r.desired_priv_set in
      adjust to_revoke (r.revoke_fun r.conn r.user_name r.scoped_name to_revoke) false λ changed.
        adjust to_grant (r.grant_fun r.conn r.user_name r.scoped_name to_grant) changed done

  unfoldable pub reconcile_privs : PrivsReconciler db → db.World → Changes db.World
  unfolding adjust_privs
  reconcile_privs r w =
      let read = r.privs_get_fun r.conn r.user_name r.scoped_name w in
      with_found (adjust_privs r) read.0 read.1

  unfoldable pub revoke_all_privs : PrivsReconciler db → Exec db.World (Unit {0})
  revoke_all_privs r = r.revoke_fun r.conn r.user_name r.scoped_name r.desired_priv_set
