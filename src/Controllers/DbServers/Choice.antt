-- ===== src/Controllers/DbServers/Choice.antt =====
-- Which server is chosen.
use db_operator.Base.{
  err, status, ambiguous, codes, length, Text, text_eq, Result, ok, List, [], ◌∷◌, ◌++◌, Option,
  none, some, ◌&&◌, ◌≡◌, refl, if◌then◌else◌, append-nil, append_assoc, Bool-cases, inl, inr,
}
use db_operator.Controllers.DbServers.{DbServer, only_server, pick_server, get_db_server}

-- the first server of the name in the namespace
abbrev pub local_server : Text → Text → List DbServer → Option DbServer
local_server name namespace [] = none
local_server name namespace (server ∷ servers) =
    let later = local_server name namespace servers in
    if text_eq server.name name && text_eq server.namespace namespace then some server else later

abbrev pub named : Text → List DbServer → List DbServer
named name [] = []
named name (server ∷ servers) =
    let rest = named name servers in if text_eq server.name name then server ∷ rest else rest

-- a local server first, else the only one of that name
abbrev pub chosen : Option DbServer → List DbServer → Result DbServer
chosen (some server) candidates = ok server
chosen none [] = err (status (codes "NotFound"))
chosen none (server ∷ []) = ok server
chosen none (server ∷ (other ∷ others)) = err (ambiguous (length (server ∷ other ∷ others)))

only_server-chosen : (candidates : List DbServer) → only_server candidates ≡ chosen none candidates
only_server-chosen [] = refl
only_server-chosen (server ∷ []) = refl
only_server-chosen (server ∷ (other ∷ others)) = refl

pick_server-chosen :
    (name namespace : Text) (found servers : List DbServer)
    → pick_server name namespace found servers
      ≡ chosen (local_server name namespace servers) (found ++ named name servers)
unfolding pick_server
pick_server-chosen name namespace found [] = rw (append-nil found) (only_server-chosen found)
pick_server-chosen name namespace found (server ∷ servers) =
    elim (Bool-cases (text_eq server.name name)) [
      | inl same ↦ elim (Bool-cases (text_eq server.namespace namespace)) [
        | inl here ↦ rw (same, here) refl
        | inr there ↦
            rw (same, there)
              (cc (
                pick_server-chosen name namespace (found ++ server ∷ []) servers,
                append_assoc found (server ∷ []) (named name servers),
              ))
      ]
      | inr other ↦ rw other (pick_server-chosen name namespace found servers)
    ]

-- Of the servers in all namespaces: a server of the wanted name in the own namespace is taken, the
-- first if there are several; without one, the server of that name elsewhere is taken if it is the
-- only one; none gives a not-found error, and several an error that says how many.
pub get_db_server-chosen :
    (name namespace : Text) (servers : List DbServer)
    → get_db_server name namespace servers
      ≡ chosen (local_server name namespace servers) (named name servers)
unfolding get_db_server
get_db_server-chosen name namespace servers = pick_server-chosen name namespace [] servers
