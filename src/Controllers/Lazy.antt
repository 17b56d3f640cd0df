-- ===== src/Controllers/Lazy.antt =====
-- The helpers of a backup or restore target, which read an object when it is first wanted and keep
-- it: controllers/lazy_target_helper_base.go, lazy_backup_target_helper.go,
-- lazy_restore_target_helper.go, lazy_storage_actions_helper.go, lazy_db_helper.go and
-- lazy_db_server_helper.go. The helpers that point to each other are one record; a pointer that is
-- nil is `none`.
pub mod Direct
pub mod Kept
pub mod Unclosed
use db_operator.Base.{
  Text, codes, text_eq, to_lower, is_empty, Error, Result, ok, err, panic, unsupported, List, [],
  ◌∷◌, Option, none, some, Bool, true, false, if◌then◌else◌,
}
use db_operator.Base.Exec.{Exec, pure, raise, lift, ◌>>=◌, ◌>>◌}
use db_operator.Postgres.Backups.{BucketStorageInfo}
use db_operator.Shared.Connections.{Credentials}
use db_operator.Controllers.Containers.{
  DbActions, S3Storage, get_server_actions, get_bucket_storage_info,
}
use db_operator.Controllers.Credentials.{SecretData, get_credentials}
use db_operator.Controllers.DbServers.{DbServer, get_db_server}
use db_operator.Controllers.Db.{DbCr}

-- `BackupTargetSpec` and `RestoreTargetSpec`
pub record Target : Type 0 where
  pub storage_type : Text
  pub storage_location : Text
  pub db_name : Text

-- `DbServerConnectInfo`, with the server in place of the fields that are copied from it
pub record ConnectInfo : Type 0 where
  pub server : DbServer
  pub credentials : Credentials
  pub database : Text

-- `Client.Get` of each kind of object by namespace and name, `Client.List` of the servers, and
-- `GetServerConnection`
pub record LazyEnvironment (E Conn : Type 0) : Type 0 where
  pub get_target : Text → Text → Exec E Target
  pub get_s3_storage : Text → Text → Exec E S3Storage
  pub get_db : Text → Text → Exec E DbCr
  pub list_servers : Exec E (List DbServer)
  pub get_secret : Text → Text → Exec E SecretData
  pub get_server_connection : ConnectInfo → Exec E Conn
  pub close : Conn → E → E

pub record LazyTarget (E Conn : Type 0) : Type 0 where
  pub namespace : Text
  pub target_name : Text
  pub target : Option Target
  -- type and location of the `LazyStorageActionsHelper`, and what it has loaded
  pub storage_helper : Option (Text × Text)
  pub storage_actions : Option S3Storage
  -- the name in the `LazyDbHelper`, and what it has loaded
  pub db_helper : Option Text
  pub db : Option DbCr
  pub conn : Option Conn
  pub conn_loaded : Bool
  -- the name in the `LazyDbServerHelper`, and what it has loaded
  pub server_helper : Option Text
  pub server : Option DbServer
  pub server_credentials : Option Credentials
  pub ext : E

-- `NewLazyBackupTargetHelper` and `NewLazyRestoreTargetHelper`
abbrev pub new_lazy_target : {E Conn : Type 0} → Text → Text → E → LazyTarget E Conn
new_lazy_target namespace name e = record {
  namespace = namespace;
  target_name = name;
  target = none;
  storage_helper = none;
  storage_actions = none;
  db_helper = none;
  db = none;
  conn = none;
  conn_loaded = false;
  server_helper = none;
  server = none;
  server_credentials = none;
  ext = e;
}

abbrev pub recall : {S A : Type 0} → Option A → (A → S → S) → Exec S A → Exec S A
recall (some a) fill fetch = pure a
recall none fill fetch = fetch >>= λ a s. (ok a, fill a s)

-- a field that is filled when it is first wanted
unfoldable pub memo : {S A : Type 0} → (S → Option A) → (A → S → S) → Exec S A → Exec S A
memo field fill fetch s = recall (field s) fill fetch s

module _ {E Conn : Type 0} (env : LazyEnvironment E Conn) where
  abbrev pub outside : {A : Type 0} → Exec E A → Exec (LazyTarget E Conn) A
  outside call w = ((call w.ext).0, record w { ext = (call w.ext).1 })

  -- `GetBackupTarget` and `GetRestoreTarget`
  unfoldable pub get_target : Exec (LazyTarget E Conn) Target
  unfolding memo
  get_target =
      memo (λ w. w.target) (λ t w. record w { target = some t })
        (λ w. outside (env.get_target w.namespace w.target_name) w)

  unfoldable pub get_storage_helper : Exec (LazyTarget E Conn) (Text × Text)
  unfolding memo get_target
  get_storage_helper =
      memo (λ w. w.storage_helper) (λ h w. record w { storage_helper = some h })
        (get_target >>= λ t. pure (t.storage_type, t.storage_location))

  abbrev pub load_storage : Text × Text → Exec (LazyTarget E Conn) S3Storage
  load_storage (type, location) w =
      if text_eq (to_lower type) (codes "s3")
      then outside (env.get_s3_storage w.namespace location) w
      else (err unsupported, w)

  unfoldable pub get_storage_actions : Exec (LazyTarget E Conn) S3Storage
  unfolding memo get_storage_helper
  get_storage_actions = do
    helper ← get_storage_helper
    memo (λ w. w.storage_actions) (λ s w. record w { storage_actions = some s })
        (load_storage helper)

  unfoldable pub get_lazy_db_helper : Exec (LazyTarget E Conn) Text
  unfolding memo get_target
  get_lazy_db_helper =
      memo (λ w. w.db_helper) (λ name w. record w { db_helper = some name })
        (get_target >>= λ t. pure t.db_name)

  -- the operations of `LazyDbHelper`, on the name it has
  unfoldable pub get_db : Text → Exec (LazyTarget E Conn) DbCr
  unfolding memo
  get_db name =
      memo (λ w. w.db) (λ db w. record w { db = some db })
        (λ w. outside (env.get_db w.namespace name) w)

  unfoldable pub get_server_helper : Text → Exec (LazyTarget E Conn) Text
  unfolding memo get_db
  get_server_helper name =
      memo (λ w. w.server_helper) (λ s w. record w { server_helper = some s })
        (get_db name >>= λ db. pure db.server)

  abbrev pub find_server : Text → Exec (LazyTarget E Conn) DbServer
  find_server name w =
      (outside env.list_servers >>= λ servers. lift (get_db_server name w.namespace servers)) w

  -- `GetDbServer` of `LazyDbServerHelper`
  unfoldable pub get_helped_server : Text → Exec (LazyTarget E Conn) DbServer
  unfolding memo
  get_helped_server server_name =
      memo (λ w. w.server) (λ s w. record w { server = some s }) (find_server server_name)

  unfoldable pub get_db_server_of : Text → Exec (LazyTarget E Conn) DbServer
  unfolding get_server_helper get_helped_server
  get_db_server_of name = get_server_helper name >>= get_helped_server

  unfoldable pub get_actions : Exec (LazyTarget E Conn) DbActions
  unfolding get_lazy_db_helper get_db get_db_server_of
  get_actions = do
    name ← get_lazy_db_helper
    db ← get_db name
    server ← get_db_server_of name
    lift (get_server_actions server db)

  unfoldable pub get_storage_info_and_actions : Exec (LazyTarget E Conn) (S3Storage × DbActions)
  unfolding get_storage_actions get_actions
  get_storage_info_and_actions = do
    storage ← get_storage_actions
    actions ← get_actions
    pure (storage, actions)

  unfoldable pub get_db_name : Exec (LazyTarget E Conn) Text
  unfolding get_target
  get_db_name = get_target >>= λ t. pure t.db_name

  unfoldable pub get_target_bucket : Exec (LazyTarget E Conn) BucketStorageInfo
  unfolding get_storage_actions
  get_target_bucket = get_storage_actions >>= λ s3. pure (get_bucket_storage_info s3)

  -- `GetCredentials` of `LazyDbServerHelper`
  unfoldable pub get_server_credentials : Text → Exec (LazyTarget E Conn) Credentials
  unfolding memo get_helped_server
  get_server_credentials server_name =
      memo (λ w. w.server_credentials) (λ c w. record w { server_credentials = some c })
        (do
          server ← get_helped_server server_name
          get_credentials (λ ns name. outside (env.get_secret ns name)) server)

  unfoldable pub get_connect_info : Text → Text → Exec (LazyTarget E Conn) ConnectInfo
  unfolding get_helped_server get_server_credentials
  get_connect_info server_name database = do
    server ← get_helped_server server_name
    credentials ← get_server_credentials server_name
    pure (record { server = server; credentials = credentials; database = database })

  -- the loop over the grantors: `GetUser` of `LazyDbServerHelper` writes to a map that is never made
  abbrev pub grantor_credentials : List Text → Exec (LazyTarget E Conn) (Unit {0})
  grantor_credentials [] = pure tt
  grantor_credentials (grantor ∷ grantors) = lift panic

  unfoldable pub connect : Text → List Text → Exec (LazyTarget E Conn) Conn
  unfolding get_db_server_of get_server_helper get_connect_info
  connect name grantors = do
    get_db_server_of name
    server_name ← get_server_helper name
    info ← get_connect_info server_name name
    grantor_credentials grantors
    outside (env.get_server_connection info)

  abbrev pub loaded_conn : LazyTarget E Conn → Result Conn × LazyTarget E Conn
  loaded_conn w = elim w.conn [ none ↦ (panic, w) | some conn ↦ (ok conn, w) ]

  -- `GetDbConnection` of `LazyDbHelper`, of a name and the grantors
  unfoldable pub get_db_connection : Text → List Text → Exec (LazyTarget E Conn) Conn
  unfolding connect
  get_db_connection name grantors w =
      if w.conn_loaded then loaded_conn w else connect name grantors w

  -- the target's database, without grantors
  unfoldable pub get_target_connection : Exec (LazyTarget E Conn) Conn
  unfolding get_lazy_db_helper get_db_connection
  get_target_connection = get_lazy_db_helper >>= λ name. get_db_connection name []

  abbrev pub closed : Option Conn → LazyTarget E Conn → LazyTarget E Conn
  closed none w = w
  closed (some conn) w = record w { ext = env.close conn w.ext }

  unfoldable pub cleanup_conn : LazyTarget E Conn → LazyTarget E Conn
  cleanup_conn w = if w.conn_loaded then closed w.conn w else w
