-- ===== src/Controllers/Tests/Grantors.antt =====
-- A grantor who has no secret.
use db_operator.Base.{List, ◌∷◌, Text, codes, ok, [], none, some, false, true}
use db_operator.Base.Int.{pos}
use db_operator.Api.{UserSpec}
use db_operator.Interfaces.Files.{Files}
use db_operator.Shared.Connections.{ConnectionsStore}
use db_operator.Base.{Result, ℕ, length}
use db_operator.Base.Exec.{Exec}
use db_operator.Controllers.Credentials.{SecretData}
use db_operator.Postgres.Connector.{ConnectInfo}

-- the paths that were written, and files that have no digest of their own
abbrev Written : Type 0
Written = List Text

abbrev disk_files : Files Written
disk_files = record {
  digest = λ c. c;
  stat = λ p w. (false, w);
  mkdir_all = λ p w. w;
  write_file = λ p c w. (ok tt, p ∷ w);
}

abbrev owner_spec : UserSpec
owner_spec = record {
  user_name = codes "owner";
  secret_name = [];
  generate_secret = false;
  password_key = [];
  ca_cert_key = [];
  tls_crt_key = [];
  tls_key_key = [];
  db_server_name = codes "main";
  db_privs = [];
  server_privs = [];
  drop_on_deletion = true;
  drop_user_options = none;
}

abbrev main_info : ConnectInfo
main_info = record {
  host = codes "db";
  port = pos 5432;
  credentials = record {
    user_name = codes "root";
    password = some (codes "pw");
    ca_cert = none;
    tls_crt = none;
    tls_key = none;
  };
  database = [];
  options = [];
}

abbrev owner_store : ConnectionsStore ℕ
owner_store = record {
  server_credentials = main_info.credentials;
  user_credentials = (codes "owner", none) ∷ [];
  connections = [];
}

-- a connection is numbered by the length of its text
abbrev opened : Text → Written → Result ℕ × Written
opened text w = (ok (length text), text ∷ w)

abbrev secret_of : Text → Text → Exec Written SecretData
secret_of ns name w = (ok [], w)

abbrev user_of : Text → Text → Exec Written UserSpec
user_of ns name w = (ok owner_spec, w)
