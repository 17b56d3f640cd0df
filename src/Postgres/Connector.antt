-- ===== src/Postgres/Connector.antt =====
-- `PostgresConnector` of dbservers/postgres/connector.go: the text that a connection is opened with, and
-- the files of its certificates.
pub mod Certificates
use db_operator.Base.{
  Text, codes, is_empty, Error, Result, ok, err, panic, List, [], ◌∷◌, ◌++◌, Option, none, some,
  is_some, Bool, true, false, ◌||◌, if◌then◌else◌,
}
use db_operator.Base.Exec.{Exec, pure, raise, lift, ◌>>=◌, ◌>>◌}
use db_operator.Base.Int.{ℤ, itoa}
use db_operator.Base.Maps.{lookup}
use db_operator.Interfaces.Files.{Files}
use db_operator.Shared.Connections.{Credentials}
use db_operator.Postgres.Statements.{concat}

-- `DbServerConnectInfo`
pub record ConnectInfo : Type 0 where
  pub host : Text
  pub port : ℤ
  pub credentials : Credentials
  pub database : Text
  pub options : List (Text × Text)

abbrev pub temp_certs_dir : Text
temp_certs_dir = codes "tempCertsDir"

-- `filepath.Join(".", "tempCertsDir", fileName)`
abbrev pub temp_path : Text → Text
temp_path file_name = temp_certs_dir ++ b'/' ∷ file_name

abbrev pub entry : Text → Option Text → Text
entry key none = []
entry key (some text) = concat (codes " " ∷ key ∷ codes "=" ∷ text ∷ [])

abbrev pub or_else : Option Text → Option Text → Option Text
or_else none b = b
or_else (some a) b = some a

module _ {W : Type 0} (files : Files W) where
  -- a file that is there is taken as it is
  unfoldable pub write_to_temp_file : Text → Exec W Text
  write_to_temp_file contents w =
      let path = temp_path (files.digest contents) in
      let (there, w') = files.stat path w in
      if there then (ok path, w') else (files.write_file path contents >>= λ _. pure path) w'

  -- a certificate, if it is given
  unfoldable pub write_optional : Option Text → Exec W (Option Text)
  unfolding write_to_temp_file
  write_optional none = pure none
  write_optional (some contents) = write_to_temp_file contents >>= λ path. pure (some path)

  unfoldable pub write_certs : Credentials → Option Text → Exec W Text
  unfolding write_optional
  write_certs creds ca_cert = do
    root ← write_optional ca_cert
    key ← write_optional creds.tls_key
    cert ← write_optional creds.tls_crt
    pure (
        entry (codes "sslrootcert") root
        ++ (entry (codes "sslkey") key ++ entry (codes "sslcert") cert))

  abbrev pub basic_string : Text → Text → Text → Text → ℤ → Option Text → Text
  basic_string host user_name db_name ssl_mode port password = concat (
      codes "host="
      ∷ host
      ∷ codes " port="
      ∷ itoa port
      ∷ codes " user="
      ∷ user_name
      ∷ codes " dbname="
      ∷ db_name
      ∷ codes " sslmode="
      ∷ ssl_mode
      ∷ entry (codes "password") password
      ∷ [])

  -- the directory is only made for a certificate
  unfoldable pub get_connection_string :
      Text → Text → Text → ℤ → Credentials → Option Text → Exec W Text
  unfolding write_certs
  get_connection_string host db_name ssl_mode port creds ca_cert w =
      let basic = basic_string host creds.user_name db_name ssl_mode port creds.password in
      if is_some ca_cert || (is_some creds.tls_crt || is_some creds.tls_key)
      then (write_certs creds ca_cert >>= λ certs. pure (basic ++ certs))
          (files.mkdir_all temp_certs_dir w)
      else (ok basic, w)

  abbrev pub database_name : ConnectInfo → Option Text → Text
  database_name info (some name) = name
  database_name info none = if is_empty info.database then codes "postgres" else info.database

  abbrev pub ssl_mode_of : Option Text → Text
  ssl_mode_of none = codes "require"
  ssl_mode_of (some mode) = mode

  unfoldable pub connect_as : ConnectInfo → Text → Option Credentials → Exec W Text
  unfolding get_connection_string
  connect_as info db_name none =
      get_connection_string info.host db_name (ssl_mode_of (lookup (codes "sslmode") info.options))
        info.port info.credentials info.credentials.ca_cert
  connect_as info db_name (some creds) =
      get_connection_string info.host db_name (ssl_mode_of (lookup (codes "sslmode") info.options))
        info.port creds (or_else creds.ca_cert info.credentials.ca_cert)

  -- `Connect` up to `sql.Open`
  unfoldable pub connection_string : ConnectInfo → Option Credentials → Option Text → Exec W Text
  unfolding connect_as
  connection_string info creds db_name = connect_as info (database_name info db_name) creds
