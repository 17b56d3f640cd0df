-- ===== src/Controllers/User.antt =====
-- `UserReco` of controllers/user_controller.go, on the connection that `LoadObj` has opened. A panic,
-- which ends an operation early, is an outcome of it here.
pub mod Removal
use db_operator.Base.{
  Text, codes, text_eq, member, is_empty, Error, Result, ok, err, panic, or_panic, List, [], ◌∷◌,
  Option, none, some, Bool, true, false, if◌then◌else◌,
}
use db_operator.Base.Exec.{Exec, pure, raise, lift, wrapping, ◌>>=◌, ◌>>◌}
use db_operator.Base.Int.{ℤ}
use db_operator.Api.{DbPriv, UserSpec}
use db_operator.Shared.Strings.{nvl}
use db_operator.Shared.Backoff.{CtrlResult, no_requeue, gradual_backoff_retry}
use db_operator.Shared.Connections.{Credentials}
use db_operator.Postgres.Reconciler.{Changes}
use db_operator.Controllers.DbServers.{DbServer, get_db_server}
use db_operator.Controllers.Credentials.{SecretData, get_user_credentials}

-- the methods of `DbServerConnectionInterface` that the controller calls
pub record ServerConnection (W : Type 0) : Type 0 where
  pub create_user : Text → Text → Exec W (Unit {0})
  pub drop_user : UserSpec → Exec W (Unit {0})
  pub get_users : Exec W (List Text)
  pub update_user_privs : Text → Text → List DbPriv → W → Changes W

-- the resource
pub record UserCr : Type 0 where
  pub spec : UserSpec
  pub namespace : Text

-- what the controller reaches through the API server, the clock and the other controllers
pub record Environment (W : Type 0) : Type 0 where
  pub list_servers : Exec W (List DbServer)
  pub get_secret : Text → Exec W SecretData
  pub create_secret : Text → SecretData → Exec W (Unit {0})
  pub generate_password : Exec W Text
  -- `GetDbConnection` with the names of the grantors
  pub connect : DbServer → List Text → Exec W (ServerConnection W)
  -- `TriggerDbServerReconcile`, which is also called with nil
  pub trigger : Option DbServer → W → W
  pub since_creation : W → ℤ
  pub since_deletion : W → ℤ

unfoldable pub grantor_names : List DbPriv → List Text
grantor_names [] = []
grantor_names (p ∷ ps) =
    let rest = grantor_names ps in elim p.grantor [ none ↦ rest | some user ↦ user ∷ rest ]

module _ {W : Type 0} (env : Environment W) (user : UserCr) where
  -- the server of the specification
  abbrev pub find_server : Exec W DbServer
  find_server = do
    servers ← env.list_servers
    lift (get_db_server user.spec.db_server_name user.namespace servers)

  -- whether the user exists, and the connection
  unfoldable pub load_obj : Exec W (Bool × ServerConnection W)
  unfolding grantor_names
  load_obj = do
    server ← find_server
    conn ← env.connect server (grantor_names user.spec.db_privs)
    users ← conn.get_users
    pure (member user.spec.user_name users, conn)

  -- the error is logged, and nil is sent on; the list of servers does not panic
  abbrev pub notified : Result DbServer × W → W
  notified (ok server, w) = env.trigger (some server) w
  notified (err e, w) = env.trigger none w
  notified (panic, w) = w

  unfoldable pub notify_changes : W → W
  notify_changes w = notified (find_server w)

  abbrev pub back_off_creation : Exec W CtrlResult
  back_off_creation w = (ok (gradual_backoff_retry (env.since_creation w)), w)

  abbrev pub back_off_deletion : Exec W CtrlResult
  back_off_deletion w = (ok (gradual_backoff_retry (env.since_deletion w)), w)

  -- `if err != nil { return r.LogAndBackoff…(err, r.GetCR()) }`
  abbrev pub or_back_off :
      {A : Type 0}
      → Exec W CtrlResult
      → (A → Exec W CtrlResult)
      → Result A × W
      → Result CtrlResult × W
  or_back_off back next (ok a, w) = next a w
  or_back_off back next (err e, w) = back w
  or_back_off back next (panic, w) = (panic, w)

  abbrev new_secret : Exec W (Unit {0})
  new_secret = do
    password ← env.generate_password
    env.create_secret user.spec.secret_name
        ((nvl user.spec.password_key (codes "password"), password) ∷ [])

  -- a secret that is there is kept, whatever it holds; every error counts as a missing secret
  unfoldable pub generate_secret : Exec W (Unit {0})
  generate_secret w =
      let got = env.get_secret user.spec.secret_name w in
      elim got.0 [ ok _ ↦ (ok tt, got.1) | panic ↦ (panic, got.1) | err _ ↦ new_secret got.1 ]

  abbrev pub after_update : Changes W → Result CtrlResult × W
  after_update (changed, ok _, w) = (ok no_requeue, (if changed then notify_changes w else w))
  after_update (changed, err e, w) = back_off_creation w
  after_update (changed, panic, w) = (panic, w)

  unfoldable pub ensure_correct : ServerConnection W → Exec W CtrlResult
  unfolding notify_changes
  ensure_correct conn w =
      after_update
        (conn.update_user_privs user.spec.user_name user.spec.server_privs user.spec.db_privs w)

  abbrev pub create_as : ServerConnection W → Text → Exec W CtrlResult
  unfolding notify_changes ensure_correct
  create_as conn password w =
      or_back_off back_off_creation (λ _ w'. ensure_correct conn (notify_changes w'))
        (conn.create_user user.spec.user_name password w)

  -- with credentials that may be nil, and a password that may be nil
  unfoldable pub create_with : ServerConnection W → Option Credentials → Exec W CtrlResult
  create_with conn creds w = elim creds [
    | none ↦ (panic, w)
    | some c ↦ elim c.password [ none ↦ (panic, w) | some password ↦ create_as conn password w ]
  ]

  abbrev pub create_after_secret : ServerConnection W → Exec W CtrlResult
  create_after_secret conn w =
      or_back_off back_off_creation (create_with conn)
        (get_user_credentials env.get_secret user.spec w)

  -- an error of the generated secret is returned, with a retry that the loop replaces by its own
  abbrev pub after_secret : ServerConnection W → Result (Unit {0}) × W → Result CtrlResult × W
  after_secret conn (ok _, w) = create_after_secret conn w
  after_secret conn (err e, w) = (err e, w)
  after_secret conn (panic, w) = (panic, w)

  unfoldable pub create_obj : ServerConnection W → Exec W CtrlResult
  unfolding generate_secret create_with
  create_obj conn w =
      if user.spec.generate_secret
      then after_secret conn (generate_secret w)
      else create_after_secret conn w

  abbrev pub after_drop : Result (Unit {0}) × W → Result CtrlResult × W
  after_drop = or_back_off back_off_deletion (λ _ w. (ok no_requeue, notify_changes w))

  unfoldable pub remove_obj : ServerConnection W → Exec W CtrlResult
  unfolding notify_changes
  remove_obj conn w =
      if user.spec.drop_on_deletion
      then after_drop (conn.drop_user user.spec w)
      else (ok no_requeue, notify_changes w)
