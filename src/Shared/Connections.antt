-- ===== src/Shared/Connections.antt =====
-- The cache of connections of shared/connection_store.go.
pub mod Cache
use db_operator.Base.{
  Text, text_eq, Result, ok, err, panic, no_credentials, List, [], ◌∷◌, Option, none, some, Bool,
  true, false, ◌&&◌, if◌then◌else◌,
}
use db_operator.Base.Exec.{Exec}
use db_operator.Base.Maps.{lookup}
use db_operator.Interfaces.Sql.{Sql}

pub record Credentials : Type 0 where
  pub user_name : Text
  pub password : Option Text
  pub ca_cert : Option Text
  pub tls_crt : Option Text
  pub tls_key : Option Text

pub record ConnectionKey : Type 0 where
  pub db_name : Text
  pub user_name : Text

-- what a nil name stands for in a key
abbrev pub or_blank : Option Text → Text
or_blank none = []
or_blank (some t) = t

unfoldable pub new_connection_key : Option Text → Option Text → ConnectionKey
new_connection_key user_name database_name = record {
  db_name = or_blank database_name;
  user_name = or_blank user_name;
}

unfoldable pub key_eq : ConnectionKey → ConnectionKey → Bool
key_eq k l = text_eq k.db_name l.db_name && text_eq k.user_name l.user_name

module _ {C : Type 0} where
  unfoldable pub find_connection : ConnectionKey → List (ConnectionKey × C) → Option C
  find_connection k [] = none
  find_connection k ((key, conn) ∷ m) =
      let later = find_connection k m in if key_eq key k then some conn else later

-- the credentials of the server, those of the known users, which may be nil, and the open connections
pub record ConnectionsStore (C : Type 0) : Type 0 where
  pub server_credentials : Credentials
  pub user_credentials : List (Text × Option Credentials)
  pub connections : List (ConnectionKey × C)

unfoldable pub credentials_for :
    {C : Type 0} → ConnectionsStore C → Option Text → Result (Option Credentials)
credentials_for c none = ok (some c.server_credentials)
credentials_for c (some user) = elim (lookup user c.user_credentials) [
  | none ↦ err (no_credentials user)
  | some creds ↦ ok creds
]

module _ {C W : Type 0} (connect : Option Credentials → Option Text → Exec W C) where
  -- the entry of a new key goes in front
  abbrev pub remember :
      ConnectionKey → ConnectionsStore C → Result C × W → Result C × (ConnectionsStore C × W)
  remember k c (ok conn, w) = (ok conn, (record c { connections = (k, conn) ∷ c.connections }, w))
  remember k c (err e, w) = (err e, (c, w))
  remember k c (panic, w) = (panic, (c, w))

  abbrev pub open_new :
      ConnectionKey → Option Text → Result (Option Credentials) → Exec (ConnectionsStore C × W) C
  open_new k database_name (ok creds) (c, w) = remember k c (connect creds database_name w)
  open_new k database_name (err e) s = (err e, s)
  open_new k database_name panic s = (panic, s)

  unfoldable pub get_db_connection : Option Text → Option Text → Exec (ConnectionsStore C × W) C
  unfolding credentials_for find_connection
  get_db_connection user_name database_name (c, w) =
      let k = new_connection_key user_name database_name in
      let fresh = open_new k database_name (credentials_for c user_name) (c, w) in
      elim (find_connection k c.connections) [ some conn ↦ (ok conn, (c, w)) | none ↦ fresh ]

module _ {C W : Type 0} (close_conn : C → Exec W (Unit {0})) where
  -- the connections are closed one by one, up to the first error
  unfoldable pub close_each : List (ConnectionKey × C) → Exec W (Unit {0})
  close_each [] w = (ok tt, w)
  close_each ((k, conn) ∷ m) w =
      let closed = close_conn conn w in
      let rest = close_each m closed.1 in
      elim closed.0 [ ok _ ↦ rest | err e ↦ (err e, closed.1) | panic ↦ (panic, closed.1) ]

  abbrev pub forget :
      ConnectionsStore C → Result (Unit {0}) × W → Result (Unit {0}) × (ConnectionsStore C × W)
  forget c (ok _, w) = (ok tt, (record c { connections = [] }, w))
  forget c (err e, w) = (err e, (c, w))
  forget c (panic, w) = (panic, (c, w))

  unfoldable pub close : Exec (ConnectionsStore C × W) (Unit {0})
  unfolding close_each
  close (c, w) = forget c (close_each c.connections w)
