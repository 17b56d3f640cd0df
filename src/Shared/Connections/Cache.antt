-- ===== src/Shared/Connections/Cache.antt =====
-- What the cache of connections keeps and returns.
use db_operator.Base.{
  text_eq_iff, Bool-cases, ◌∙◌, ◌⊎◌, Text, text_eq_refl, Error, Result, ok, err, panic, List, [],
  ◌∷◌, Option, some, true, false, ◌≡◌, refl, arith, Option-cases, inl, inr,
}
use db_operator.Base.Exec.{Exec}
use db_operator.Shared.Connections.{
  forget, Credentials, ConnectionKey, new_connection_key, key_eq, find_connection, ConnectionsStore,
  credentials_for, remember, open_new, get_db_connection, close_each, close,
}

key_eq_refl : (k : ConnectionKey) → key_eq k k ≡ true
unfolding key_eq
key_eq_refl k = ground (arith, text_eq_refl k.db_name, text_eq_refl k.user_name)

key_eq_sound : (k l : ConnectionKey) → key_eq k l ≡ true → k ≡ l
unfolding key_eq
key_eq_sound k l h =
    let databases : k.db_name ≡ l.db_name = ground (arith, h, text_eq_iff k.db_name l.db_name) in
    let users : k.user_name ≡ l.user_name =
      ground (arith, h, text_eq_iff k.user_name l.user_name) in
    cc (databases, users)

module _ {C W : Type 0} (connect : Option Credentials → Option Text → Exec W C) where
  -- a connection that is opened is put into the cache
  remember-found :
      (k : ConnectionKey) (c c' : ConnectionsStore C) (r : Result C × W) (w' : W) (conn : C)
      → remember connect k c r ≡ (ok conn, (c', w'))
      → find_connection k c'.connections ≡ some conn
  unfolding find_connection
  remember-found k c c' (ok conn₁, w₁) w' conn h =
      let opened : c' ≡ record c { connections = (k, conn₁) ∷ c.connections } = cc in
      let same : conn₁ ≡ conn = cc in rw (opened, key_eq_refl k, same) refl
  remember-found k c c' (err e, w₁) w' conn h = cc
  remember-found k c c' (panic, w₁) w' conn h = cc

  open_new-found :
      (k : ConnectionKey) (db : Option Text) (creds : Result (Option Credentials))
      (c c' : ConnectionsStore C) (w w' : W) (conn : C)
      → open_new connect k db creds (c, w) ≡ (ok conn, (c', w'))
      → find_connection k c'.connections ≡ some conn
  open_new-found k db (ok creds) c c' w w' conn h =
      remember-found k c c' (connect creds db w) w' conn h
  open_new-found k db (err e) c c' w w' conn h = cc
  open_new-found k db panic c c' w w' conn h = cc

  found_after :
      (user db : Option Text) (c c' : ConnectionsStore C) (w w' : W) (conn : C)
      → get_db_connection connect user db (c, w) ≡ (ok conn, (c', w'))
      → find_connection (new_connection_key user db) c'.connections ≡ some conn
  unfolding get_db_connection
  found_after user db c c' w w' conn h =
      elim (Option-cases (find_connection (new_connection_key user db) c.connections)) [
        | inl absent ↦
            open_new-found (new_connection_key user db) db (credentials_for c user) c c' w w' conn
              (rw (get_db_connection, absent) at h)
        | inr (conn₀, present) ↦
            let kept = rw (get_db_connection, present) at h in
            let store : c ≡ c' = cc kept in
            let same : conn₀ ≡ conn = cc kept in cc (present, store, same)
      ]

  -- a request with the key of a known connection returns it
  known_again :
      (user db : Option Text) (c : ConnectionsStore C) (w : W) (conn : C)
      → find_connection (new_connection_key user db) c.connections ≡ some conn
      → get_db_connection connect user db (c, w) ≡ (ok conn, (c, w))
  unfolding get_db_connection
  known_again user db c w conn found = rw (get_db_connection, found) refl

  other_key :
      (k : ConnectionKey) (conn : C) (l : ConnectionKey) (m : List (ConnectionKey × C))
      → key_eq k l ≡ false
      → find_connection l ((k, conn) ∷ m) ≡ find_connection l m
  unfolding find_connection
  other_key k conn l m differ = rw differ refl

  open_new-kept :
      (k l : ConnectionKey) (db : Option Text) (creds : Result (Option Credentials))
      (c : ConnectionsStore C) (w : W)
      → key_eq k l ≡ false
      → find_connection l (open_new connect k db creds (c, w)).1.0.connections
        ≡ find_connection l c.connections
  open_new-kept k l db (ok creds) c w differ = go (connect creds db w)
    where
      go :
          (r : Result C × W)
          → find_connection l (remember connect k c r).1.0.connections
            ≡ find_connection l c.connections
      go (ok conn, w₁) = other_key k conn l c.connections differ
      go (err e, w₁) = refl
      go (panic, w₁) = refl
  open_new-kept k l db (err e) c w differ = refl
  open_new-kept k l db panic c w differ = refl

  -- A request, whatever its outcome, changes nothing of the cache for another key.
  pub get_db_connection-others :
      (user db : Option Text) (l : ConnectionKey) (c : ConnectionsStore C) (w : W)
      → key_eq (new_connection_key user db) l ≡ false
      → find_connection l (get_db_connection connect user db (c, w)).1.0.connections
        ≡ find_connection l c.connections
  unfolding get_db_connection
  get_db_connection-others user db l c w differ =
      elim (Option-cases (find_connection (new_connection_key user db) c.connections)) [
        | inl absent ↦
            rw (get_db_connection, absent)
              (open_new-kept (new_connection_key user db) l db (credentials_for c user) c w differ)
        | inr (conn, present) ↦ rw (get_db_connection, present) refl
      ]

  -- a request by any names keeps a connection that is known
  known_kept :
      (user db : Option Text) (k : ConnectionKey) (c : ConnectionsStore C) (w : W) (conn : C)
      → find_connection k c.connections ≡ some conn
      → find_connection k (get_db_connection connect user db (c, w)).1.0.connections ≡ some conn
  known_kept user db k c w conn found = elim (Bool-cases (key_eq (new_connection_key user db) k)) [
    | inl same ↦
        let key = key_eq_sound (new_connection_key user db) k same in
        let again = known_again user db c w conn (rw key found) in rw again found
    | inr differ ↦ get_db_connection-others user db k c w differ ∙ found
  ]

  -- the store and the world after some requests, each with its names, whatever their outcomes
  unfoldable pub requests :
      List (Option Text × Option Text) → ConnectionsStore C × W → ConnectionsStore C × W
  requests [] s = s
  requests ((user, db) ∷ more) s = requests more (get_db_connection connect user db s).1

  requests-kept :
      (more : List (Option Text × Option Text)) (k : ConnectionKey) (c : ConnectionsStore C) (w : W)
      (conn : C)
      → find_connection k c.connections ≡ some conn
      → find_connection k (requests more (c, w)).0.connections ≡ some conn
  unfolding requests
  requests-kept [] k c w conn found = found
  requests-kept ((user, db) ∷ more) k c w conn found =
      requests-kept more k (get_db_connection connect user db (c, w)).1.0
        (get_db_connection connect user db (c, w)).1.1 conn (known_kept user db k c w conn found)

  -- Once a connection was returned for a user and a database, and after any further requests by any
  -- names, whatever their outcomes: each request whose names have the same key, nil counting as the
  -- empty name, returns that connection without a new one, and changes nothing.
  pub get_db_connection-again :
      (user db user' db' : Option Text) (more : List (Option Text × Option Text))
      (c c' : ConnectionsStore C) (w w' : W) (conn : C)
      → get_db_connection connect user db (c, w) ≡ (ok conn, (c', w'))
      → new_connection_key user' db' ≡ new_connection_key user db
      → get_db_connection connect user' db' (requests more (c', w'))
        ≡ (ok conn, requests more (c', w'))
  get_db_connection-again user db user' db' more c c' w w' conn h same =
      known_again user' db' (requests more (c', w')).0 (requests more (c', w')).1 conn (
        rw same (
          requests-kept more (new_connection_key user db) c' w' conn
            (found_after user db c c' w w' conn h)))

module _ {C W : Type 0} (close_conn : C → Exec W (Unit {0})) where
  -- After a close that succeeds the cache is empty; after one that fails it still holds every
  -- connection, those included that are closed by now.
  pub close-connections :
      (c : ConnectionsStore C) (w : W)
      → (((close close_conn (c, w)).0 ≡ ok tt) × ((close close_conn (c, w)).1.0.connections ≡ []))
        ⊎ ((e : Error) × ((close close_conn (c, w)).0 ≡ err e)
            × ((close close_conn (c, w)).1.0 ≡ c))
        ⊎ (((close close_conn (c, w)).0 ≡ panic) × ((close close_conn (c, w)).1.0 ≡ c))
  unfolding close
  close-connections c w = go (close_each close_conn c.connections w)
    where
      go :
          (r : Result (Unit {0}) × W)
          → (((forget close_conn c r).0 ≡ ok tt) × ((forget close_conn c r).1.0.connections ≡ []))
            ⊎ ((e : Error) × ((forget close_conn c r).0 ≡ err e)
                × ((forget close_conn c r).1.0 ≡ c))
            ⊎ (((forget close_conn c r).0 ≡ panic) × ((forget close_conn c r).1.0 ≡ c))
      go (ok _, w₁) = inl (refl, refl)
      go (err e, w₁) = inr (inl (e, refl, refl))
      go (panic, w₁) = inr (inr (refl, refl))
