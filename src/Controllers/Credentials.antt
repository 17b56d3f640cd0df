-- ===== src/Controllers/Credentials.antt =====
-- How credentials are read from secrets: `GetUserCredentials` of controllers/user_controller.go, and
-- `GetDbServerSecrets` and `GetCredentials` of controllers/reconcilable.go.
pub mod Keys
use db_operator.Base.{
  Text, codes, text_eq, is_empty, Error, Result, ok, err, panic, no_credentials, wrapped, List, [],
  ◌∷◌, Option, none, some, Bool, true, false, not, ◌&&◌, ◌||◌, if◌then◌else◌, ◌>>=◌,
}
use db_operator.Base.Exec.{Exec, pure, raise, lift, wrapping}
use db_operator.Base.Exec.{◌>>=◌ as and_then}
use db_operator.Base.Maps.{lookup}
use db_operator.Api.{UserSpec}
use db_operator.Shared.Strings.{nvl}
use db_operator.Shared.Connections.{Credentials}
use db_operator.Controllers.DbServers.{DbServer}

-- the data of a secret
abbrev pub SecretData : Type 0
SecretData = List (Text × Text)

-- an entry that the specification names must be there; without a name it is nil
unfoldable pub read_key : Text → SecretData → Result (Option Text)
read_key key secret = if is_empty key then ok none else (elim (lookup key secret) [
  | none ↦ err (no_credentials key)
  | some value ↦ ok (some value)
])

abbrev pub credentials_with :
    Text → Option Text → Option Text → Option Text → Option Text → Credentials
credentials_with user password ca_cert tls_key tls_crt = record {
  user_name = user;
  password = password;
  ca_cert = ca_cert;
  tls_crt = tls_crt;
  tls_key = tls_key;
}

-- the password may be missing
unfoldable pub credentials_of : Text → Text → Text → Text → Text → SecretData → Result Credentials
unfolding read_key
credentials_of user password_key ca_cert_key tls_key_key tls_crt_key secret = do
  ca_cert ← read_key ca_cert_key secret
  tls_key ← read_key tls_key_key secret
  tls_crt ← read_key tls_crt_key secret
  ok (
      credentials_with user (lookup (nvl password_key (codes "password")) secret) ca_cert tls_key
        tls_crt)

abbrev pub any_key : UserSpec → Bool
any_key spec =
    not (is_empty spec.password_key)
    || (not (is_empty spec.tls_crt_key)
        || (not (is_empty spec.tls_key_key) || not (is_empty spec.ca_cert_key)))

module _ {W : Type 0} (get_secret : Text → Exec W SecretData) where
  abbrev pub from_secret : UserSpec → Result SecretData → Result (Option Credentials)
  from_secret spec (ok secret) = do
    creds ←
        credentials_of spec.user_name spec.password_key spec.ca_cert_key spec.tls_key_key
          spec.tls_crt_key secret
    ok (some creds)
  from_secret spec (err e) = err (no_credentials spec.secret_name)
  from_secret spec panic = panic

  -- nil credentials for a user without a secret
  unfoldable pub get_user_credentials : UserSpec → Exec W (Option Credentials)
  unfolding credentials_of
  get_user_credentials spec w =
      let got = get_secret spec.secret_name w in
      if is_empty spec.secret_name
      then (if any_key spec then (err (no_credentials []), w) else (ok none, w))
      else (from_secret spec got.0, got.1)

-- with secrets found by namespace and name
module _ {W : Type 0} (get_secret_of : Text → Text → Exec W SecretData) where
  unfoldable pub get_credentials : DbServer → Exec W Credentials
  unfolding credentials_of
  get_credentials server =
      and_then (wrapping (get_secret_of server.namespace server.secret_name)) (λ secret. lift (
        credentials_of server.user_name server.password_key server.ca_cert_key server.tls_key_key
          server.tls_crt_key secret))
