-- ===== src/Controllers/DbServers.antt =====
-- `GetDbServer` of controllers/dbserver_controller.go: which server a name means.
pub mod Choice
pub mod Status
use db_operator.Base.{
  Text, codes, text_eq, Error, status, ambiguous, Result, ok, err, panic, List, [], ◌∷◌, ◌++◌,
  Option, none, some, Bool, true, false, ◌&&◌, if◌then◌else◌, length,
}
use db_operator.Base.Int.{ℤ}

-- `DbServerSpec`, with name and namespace of the resource
pub record DbServer : Type 0 where
  pub name : Text
  pub namespace : Text
  pub address : Text
  pub port : ℤ
  pub user_name : Text
  pub secret_name : Text
  pub password_key : Text
  pub ca_cert_key : Text
  pub tls_crt_key : Text
  pub tls_key_key : Text
  pub version : Text
  pub server_type : Text
  pub options : List (Text × Text)

abbrev not_found : Error
not_found = status (codes "NotFound")

-- after the loop: the servers of that name, when none is local
abbrev pub only_server : List DbServer → Result DbServer
only_server [] = err not_found
only_server (server ∷ []) = ok server
only_server (server ∷ (other ∷ others)) = err (ambiguous (length (server ∷ other ∷ others)))

-- the loop, with the servers of that name that were found before
unfoldable pub pick_server : Text → Text → List DbServer → List DbServer → Result DbServer
pick_server name local_namespace found [] = only_server found
pick_server name local_namespace found (server ∷ servers) =
    let same = pick_server name local_namespace (found ++ server ∷ []) servers in
    let other = pick_server name local_namespace found servers in
    if text_eq server.name name
    then (if text_eq server.namespace local_namespace then ok server else same)
    else other

-- on the listed servers
unfoldable pub get_db_server : Text → Text → List DbServer → Result DbServer
unfolding pick_server
get_db_server name local_namespace servers = pick_server name local_namespace [] servers
