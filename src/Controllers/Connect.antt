-- ===== src/Controllers/Connect.antt =====
-- How a controller comes to a connection: `GetConnectInfo`, `GetCredentialsForUser` and
-- `GetDbConnection` of controllers/reconcilable.go, and `GetUnopenedConnection` of
-- dbservers/dbservers.go.
pub mod Known
pub mod Secretless
use db_operator.Base.{
  Text, codes, text_eq, to_lower, Result, ok, err, panic, unsupported, List, [], ◌∷◌, Option, none,
  some, ◌||◌, if◌then◌else◌,
}
use db_operator.Base.Exec.{Exec, pure, lift, ◌>>=◌, ◌>>◌}
use db_operator.Base.Maps.{store}
use db_operator.Api.{UserSpec}
use db_operator.Shared.Connections.{Credentials}
use db_operator.Postgres.Connector.{ConnectInfo}
use db_operator.Controllers.DbServers.{DbServer}
use db_operator.Controllers.Credentials.{SecretData, get_credentials, get_user_credentials}

-- a connection that is not opened yet; credentials of a user may be nil
pub record UnopenedConnection : Type 0 where
  pub flavor : Text
  pub info : ConnectInfo
  pub user_credentials : List (Text × Option Credentials)

abbrev pub database_or_blank : Option Text → Text
database_or_blank none = []
database_or_blank (some name) = name

unfoldable pub get_server_connection :
    Text → ConnectInfo → List (Text × Option Credentials) → Result UnopenedConnection
get_server_connection server_type info user_credentials =
    let flavor = to_lower server_type in
    if text_eq flavor (codes "postgres")
      || (text_eq flavor (codes "cockroachdb") || text_eq flavor (codes "mysql"))
    then ok (record { flavor = flavor; info = info; user_credentials = user_credentials })
    else err unsupported

-- secrets and users by namespace and name
module _ {W : Type 0} (get_secret : Text → Text → Exec W SecretData)
    (get_user : Text → Text → Exec W UserSpec) where
  unfoldable pub get_connect_info : DbServer → Option Text → Exec W ConnectInfo
  unfolding get_credentials
  get_connect_info server database = do
    credentials ← get_credentials get_secret server
    pure (record {
      host = server.address;
      port = server.port;
      credentials = credentials;
      database = database_or_blank database;
      options = server.options;
    })

  unfoldable pub get_credentials_for_user : Text → Text → Exec W (Option Credentials)
  unfolding get_user_credentials
  get_credentials_for_user namespace user_name = do
    spec ← get_user namespace user_name
    get_user_credentials (get_secret namespace) spec

  -- the loop over the grantors
  unfoldable pub credentials_of_users :
      Text
      → List (Text × Option Credentials)
      → List Text
      → Exec W (List (Text × Option Credentials))
  unfolding get_credentials_for_user
  credentials_of_users namespace found [] = pure found
  credentials_of_users namespace found (user_name ∷ names) =
      get_credentials_for_user namespace user_name >>= λ creds.
      credentials_of_users namespace (store user_name creds found) names

  unfoldable pub get_db_connection :
      Text → DbServer → List Text → Option Text → Exec W UnopenedConnection
  unfolding get_connect_info credentials_of_users
  get_db_connection namespace server grantor_names database = do
    info ← get_connect_info server database
    user_credentials ← credentials_of_users namespace [] grantor_names
    lift (get_server_connection server.server_type info user_credentials)
