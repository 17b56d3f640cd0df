-- ===== src/Controllers/Lazy/Unclosed.antt =====
-- The connection of a helper is never noted, so it is never closed.
use db_operator.Base.{
  Text, List, [], ◌∷◌, ok, Option, none, some, Bool, true, false, ◌≡◌, refl, if◌then◌else◌,
}
use db_operator.Base.Exec.{Exec, wrapping, ◌>>=◌, continue-keeps}
use db_operator.Controllers.Credentials.{get_credentials}
use db_operator.Controllers.Lazy.{
  loaded_conn, LazyEnvironment, LazyTarget, outside, recall, memo, get_target, get_lazy_db_helper,
  get_db, get_server_helper, get_helped_server, get_db_server_of, get_server_credentials,
  get_connect_info, grantor_credentials, connect, get_db_connection, get_target_connection,
  cleanup_conn,
}

module _ {E Conn : Type 0} (env : LazyEnvironment E Conn) where
  abbrev pub Unloaded : LazyTarget E Conn → Type 0
  Unloaded w = w.conn_loaded ≡ false

  -- a function that does not note a connection
  abbrev Keeps : {A : Type 0} → Exec (LazyTarget E Conn) A → Type 0
  Keeps m = (w : LazyTarget E Conn) → Unloaded w → Unloaded (m w).1

  bind-Keeps :
      {A B : Type 0} (m : Exec (LazyTarget E Conn) A) (f : A → Exec (LazyTarget E Conn) B)
      → Keeps m
      → ((a : A) → Keeps (f a))
      → Keeps (m >>= f)
  bind-Keeps m f kept next w unloaded =
      continue-keeps Unloaded f (m w).0 (m w).1 (kept w unloaded)
        (λ a _. next a (m w).1 (kept w unloaded))

  recall-Keeps :
      {A : Type 0} (noted : Option A) (fill : A → LazyTarget E Conn → LazyTarget E Conn)
      (fetch : Exec (LazyTarget E Conn) A)
      → Keeps fetch
      → ((a : A) (w : LazyTarget E Conn) → Unloaded w → Unloaded (fill a w))
      → Keeps (recall noted fill fetch)
  recall-Keeps (some a) fill fetch kept filled w unloaded = unloaded
  recall-Keeps none fill fetch kept filled w unloaded =
      bind-Keeps fetch (λ a s. (ok a, fill a s)) kept filled w unloaded

  memo-Keeps :
      {A : Type 0} (field : LazyTarget E Conn → Option A)
      (fill : A → LazyTarget E Conn → LazyTarget E Conn) (fetch : Exec (LazyTarget E Conn) A)
      → Keeps fetch
      → ((a : A) (w : LazyTarget E Conn) → Unloaded w → Unloaded (fill a w))
      → Keeps (memo field fill fetch)
  unfolding memo
  memo-Keeps field fill fetch kept filled w unloaded =
      recall-Keeps (field w) fill fetch kept filled w unloaded

  get_target-Keeps : Keeps (get_target env)
  unfolding get_target
  get_target-Keeps = memo-Keeps _ _ _ (λ w h. h) (λ a w h. h)

  get_lazy_db_helper-Keeps : Keeps (get_lazy_db_helper env)
  unfolding get_lazy_db_helper
  get_lazy_db_helper-Keeps =
      memo-Keeps _ _ _ (bind-Keeps (get_target env) _ get_target-Keeps (λ a w h. h)) (λ a w h. h)

  get_db-Keeps : (name : Text) → Keeps (get_db env name)
  unfolding get_db
  get_db-Keeps name = memo-Keeps _ _ _ (λ w h. h) (λ a w h. h)

  get_server_helper-Keeps : (name : Text) → Keeps (get_server_helper env name)
  unfolding get_server_helper
  get_server_helper-Keeps name =
      memo-Keeps _ _ _ (bind-Keeps (get_db env name) _ (get_db-Keeps name) (λ a w h. h))
        (λ a w h. h)

  get_helped_server-Keeps : (name : Text) → Keeps (get_helped_server env name)
  unfolding get_helped_server
  get_helped_server-Keeps name =
      memo-Keeps _ _ _ (λ w. bind-Keeps (outside env env.list_servers) _ (λ w h. h) (λ a w h. h) w)
        (λ a w h. h)

  get_db_server_of-Keeps : (name : Text) → Keeps (get_db_server_of env name)
  unfolding get_db_server_of
  get_db_server_of-Keeps name =
      bind-Keeps (get_server_helper env name) _ (get_server_helper-Keeps name)
        get_helped_server-Keeps

  get_server_credentials-Keeps : (name : Text) → Keeps (get_server_credentials env name)
  unfolding get_server_credentials get_credentials
  get_server_credentials-Keeps name =
      memo-Keeps _ _ _
        (bind-Keeps (get_helped_server env name) _ (get_helped_server-Keeps name) (λ server.
          bind-Keeps (wrapping (outside env (env.get_secret server.namespace server.secret_name))) _
            (λ w h. h) (λ a w h. h)))
        (λ a w h. h)

  get_connect_info-Keeps : (name database : Text) → Keeps (get_connect_info env name database)
  unfolding get_connect_info
  get_connect_info-Keeps name database =
      bind-Keeps (get_helped_server env name) _ (get_helped_server-Keeps name) (λ server.
        bind-Keeps (get_server_credentials env name) _ (get_server_credentials-Keeps name)
          (λ a w h. h))

  grantor_credentials-Keeps : (grantors : List Text) → Keeps (grantor_credentials env grantors)
  grantor_credentials-Keeps [] w h = h
  grantor_credentials-Keeps (grantor ∷ grantors) w h = h

  connect-Keeps : (name : Text) (grantors : List Text) → Keeps (connect env name grantors)
  unfolding connect
  connect-Keeps name grantors =
      bind-Keeps (get_db_server_of env name) _ (get_db_server_of-Keeps name) (λ server.
        bind-Keeps (get_server_helper env name) _ (get_server_helper-Keeps name) (λ server_name.
          bind-Keeps (get_connect_info env server_name name) _
            (get_connect_info-Keeps server_name name)
            (λ info.
              bind-Keeps (grantor_credentials env grantors) _ (grantor_credentials-Keeps grantors)
                (λ _ w h. h))))

  otherwise-Unloaded :
      {A : Type 0} (b : Bool) (x y : A × LazyTarget E Conn)
      → b ≡ false
      → Unloaded y.1
      → Unloaded (if b then x else y).1
  otherwise-Unloaded true x y h unloaded = cc
  otherwise-Unloaded false x y h unloaded = unloaded

  get_db_connection-Keeps :
      (name : Text) (grantors : List Text) → Keeps (get_db_connection env name grantors)
  unfolding get_db_connection
  get_db_connection-Keeps name grantors w h =
      otherwise-Unloaded w.conn_loaded (loaded_conn env w) (connect env name grantors w) h
        (connect-Keeps name grantors w h)

  get_target_connection-Keeps : Keeps (get_target_connection env)
  unfolding get_target_connection
  get_target_connection-Keeps =
      bind-Keeps (get_lazy_db_helper env) _ get_lazy_db_helper-Keeps
        (λ name. get_db_connection-Keeps name [])

  -- A helper that has noted no connection, as a new one, has noted none after it has made a
  -- connection, whatever the calls answer: `CleanupConn` then closes nothing.
  pub get_target_connection-unclosed :
      (w : LazyTarget E Conn)
      → Unloaded w
      → cleanup_conn env (get_target_connection env w).1 ≡ (get_target_connection env w).1
  unfolding cleanup_conn
  get_target_connection-unclosed w unloaded = rw (get_target_connection-Keeps w unloaded) refl
