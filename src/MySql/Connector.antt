-- ===== src/MySql/Connector.antt =====
-- `MySqlConnector` of dbservers/mysql/connector.go: the text that a connection is opened with.
use db_operator.Base.{Text, codes, Result, ok, err, unsupported, [], ◌∷◌, Option, none, some}
use db_operator.Base.Int.{itoa}
use db_operator.Shared.Connections.{Credentials}
use db_operator.Postgres.Statements.{concat}
use db_operator.Postgres.Connector.{ConnectInfo}

abbrev own_credentials : ConnectInfo → Option Credentials → Credentials
own_credentials info none = info.credentials
own_credentials info (some creds) = creds

abbrev named_database : ConnectInfo → Option Text → Text
named_database info none = info.database
named_database info (some name) = name

abbrev string_with : ConnectInfo → Text → Text → Option Text → Result Text
string_with info db_name user none = err unsupported
string_with info db_name user (some password) = ok (
    concat (
      user
      ∷ codes ":"
      ∷ password
      ∷ codes "@tcp("
      ∷ info.host
      ∷ codes ":"
      ∷ itoa info.port
      ∷ codes ")/"
      ∷ db_name
      ∷ []))

-- `Connect` up to `sql.Open`
unfoldable pub connection_string : ConnectInfo → Option Credentials → Option Text → Result Text
connection_string info creds db_name =
    let own = own_credentials info creds in
    string_with info (named_database info db_name) own.user_name own.password
