-- ===== src/Controllers/Tests/Users.antt =====
-- Two servers of one name, a secret, and a user who is created and removed.
use db_operator.Base.{Text, codes, text_eq, ok, List, [], ◌∷◌, none, some, true, false, ◌≡◌, refl}
use db_operator.Base.Int.{pos}
use db_operator.Base.Maps.{lookup}
use db_operator.Shared.Strings.{nvl}
use db_operator.Controllers.DbServers.{DbServer, get_db_server, pick_server}
use db_operator.Controllers.DbServers.Choice.{get_db_server-chosen, chosen, local_server, named}
use db_operator.Controllers.Credentials.{SecretData, credentials_of, credentials_with, read_key}
use db_operator.Controllers.Credentials.Keys.{Reads, credentials_of-Reads}
use db_operator.Controllers.User.{Environment, ServerConnection, UserCr}

abbrev pub server_in : Text → DbServer
server_in ns = record {
  name = codes "main";
  namespace = ns;
  address = codes "db";
  port = pos 5432;
  user_name = codes "root";
  secret_name = codes "root-pw";
  password_key = [];
  ca_cert_key = [];
  tls_crt_key = [];
  tls_key_key = [];
  version = codes "15";
  server_type = codes "postgres";
  options = [];
}

abbrev two_servers : List DbServer
two_servers = server_in (codes "far") ∷ server_in (codes "near") ∷ []

near_chosen :
    get_db_server (codes "main") (codes "near") two_servers ≡ ok (server_in (codes "near"))
unfolding get_db_server pick_server text_eq
near_chosen = refl

get_db_server-chosen_example :
    get_db_server (codes "main") (codes "near") two_servers
    ≡ chosen
        (local_server (codes "main") (codes "near") two_servers)
        (named (codes "main") two_servers)
get_db_server-chosen_example = get_db_server-chosen (codes "main") (codes "near") two_servers

abbrev secret_data : SecretData
secret_data = (codes "password", codes "pw") ∷ (codes "ca", codes "cert") ∷ []

secret_read :
    credentials_of (codes "app") [] (codes "ca") [] [] secret_data
    ≡ ok (credentials_with (codes "app") (some (codes "pw")) (some (codes "cert")) none none)
unfolding credentials_of read_key lookup nvl text_eq
secret_read = refl

credentials_of-Reads_example :
    (codes "app" ≡ codes "app")
    × (some (codes "pw") ≡ lookup (nvl [] (codes "password")) secret_data)
    × Reads (codes "ca") secret_data (some (codes "cert"))
    × Reads [] secret_data none
    × Reads [] secret_data none
credentials_of-Reads_example =
    credentials_of-Reads (codes "app") [] (codes "ca") [] [] secret_data
      (credentials_with (codes "app") (some (codes "pw")) (some (codes "cert")) none none)
      secret_read

-- the world is the list of the users of the server
abbrev connection : ServerConnection (List Text)
connection = record {
  create_user = λ name password w. (ok tt, name ∷ w);
  drop_user = λ spec w. (ok tt, []);
  get_users = λ w. (ok w, w);
  update_user_privs = λ name server_privs db_privs w. (false, ok tt, w);
}

abbrev environment : Environment (List Text)
environment = record {
  list_servers = λ w. (ok two_servers, w);
  get_secret = λ name w. (ok secret_data, w);
  create_secret = λ name secret w. (ok tt, w);
  generate_password = λ w. (ok (codes "generated"), w);
  connect = λ server grantors w. (ok connection, w);
  trigger = λ server w. w;
  since_creation = λ w. pos 0;
  since_deletion = λ w. pos 0;
}

abbrev app_user : UserCr
app_user = record {
  spec = record {
    user_name = codes "app";
    secret_name = [];
    generate_secret = false;
    password_key = [];
    ca_cert_key = [];
    tls_crt_key = [];
    tls_key_key = [];
    db_server_name = codes "main";
    db_privs = [];
    server_privs = [];
    drop_on_deletion = true;
    drop_user_options = none;
  };
  namespace = codes "near";
}
