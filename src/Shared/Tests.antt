-- ===== src/Shared/Tests.antt =====
-- The wait of a second run.
use db_operator.Base.{
  List, ℕ, suc, Text, codes, text_eq, Error, external, ok, err, panic, [], ◌∷◌, Option, none, some,
  ◌≡◌, ◌⊎◌, refl, false,
}
use db_operator.Base.Exec.{Exec}
use db_operator.Shared.Connections.{
  Credentials, ConnectionsStore, new_connection_key, key_eq, find_connection, credentials_for,
  get_db_connection, close,
}
use db_operator.Shared.Connections.Cache.{
  requests, get_db_connection-again, get_db_connection-others, close-connections,
}
use db_operator.Base.{true, ◌≡◌, ◌≤◌, ◌*◌, arith}
use db_operator.Base.Int.{pos}
use db_operator.Shared.Backoff.{gradual_backoff_retry, second}
use db_operator.Shared.Backoff.Bounds.{wait_seconds, gradual_backoff_bounds, gradual_backoff_mono}

gradual_backoff_bounds_example :
    (gradual_backoff_retry (pos (7 * second))
      ≡ record { requeue = true; requeue_after = pos (wait_seconds (pos (7 * second)) * second) })
    × (1 ≤ wait_seconds (pos (7 * second)))
    × (wait_seconds (pos (7 * second)) ≤ 300)
gradual_backoff_bounds_example = gradual_backoff_bounds (pos (7 * second))

gradual_backoff_mono_example : wait_seconds (pos (7 * second)) ≤ wait_seconds (pos (8 * second))
gradual_backoff_mono_example = gradual_backoff_mono (7 * second) (8 * second) (omega arith)

-- each new connection has the next number
abbrev next_connection : Option Credentials → Option Text → Exec ℕ ℕ
next_connection creds database_name n = (ok n, suc n)

abbrev operator : Credentials
operator = record {
  user_name = codes "operator";
  password = none;
  ca_cert = none;
  tls_crt = none;
  tls_key = none;
}

abbrev empty_store : ConnectionsStore ℕ
empty_store = record {
  server_credentials = operator;
  user_credentials = (codes "owner", some operator) ∷ [];
  connections = [];
}

abbrev one_open : ConnectionsStore ℕ
one_open = record empty_store { connections = (new_connection_key none none, 3) ∷ [] }

first_connection :
    get_db_connection next_connection none none (empty_store, 3) ≡ (ok 3, (one_open, 4))
unfolding get_db_connection find_connection credentials_for new_connection_key
first_connection = refl

same_key : new_connection_key (some []) (some []) ≡ new_connection_key none none
unfolding new_connection_key
same_key = refl

-- requests for another user, and for one who is not known
abbrev other_requests : List (Option Text × Option Text)
other_requests = (some (codes "owner"), none) ∷ (some (codes "nobody"), none) ∷ []

get_db_connection-again_example :
    get_db_connection next_connection
      (some [])
      (some [])
      (requests next_connection other_requests (one_open, 4))
    ≡ (ok 3, requests next_connection other_requests (one_open, 4))
get_db_connection-again_example =
    get_db_connection-again next_connection none none (some []) (some []) other_requests empty_store
      one_open 3 4 3 first_connection same_key

keys_differ :
    key_eq (new_connection_key (some (codes "owner")) none) (new_connection_key none none) ≡ false
unfolding key_eq new_connection_key text_eq
keys_differ = refl

get_db_connection-others_example :
    find_connection
      (new_connection_key none none)
      (get_db_connection next_connection (some (codes "owner")) none (one_open, 4)).1.0.connections
    ≡ find_connection (new_connection_key none none) one_open.connections
get_db_connection-others_example =
    get_db_connection-others next_connection (some (codes "owner")) none
      (new_connection_key none none) one_open 4 keys_differ

abbrev no_close : ℕ → Exec ℕ (Unit {0})
no_close conn w = (err (external (codes "bad connection")), w)

close-connections_example :
    (((close no_close (one_open, 4)).0 ≡ ok tt)
      × ((close no_close (one_open, 4)).1.0.connections ≡ []))
    ⊎ ((e : Error) × ((close no_close (one_open, 4)).0 ≡ err e)
        × ((close no_close (one_open, 4)).1.0 ≡ one_open))
    ⊎ (((close no_close (one_open, 4)).0 ≡ panic) × ((close no_close (one_open, 4)).1.0 ≡ one_open))
close-connections_example = close-connections no_close one_open 4
