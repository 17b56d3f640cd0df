-- ===== src/MySql/Users.antt =====
-- `getPrivileges` and `UpdateUserPrivs` of
-- dbservers/mysql/privileges.go.
pub mod Loops
pub mod Convergence
pub mod Guards
use db_operator.Base.{
  Text, codes, text_eq, join, replace_byte, is_empty, length, Result, ok, err, panic, or_panic,
  quoted_name, unquoted_table, List, [], ◌∷◌, ◌++◌, Option, none, some, Bool, true, false, not,
  ◌&&◌, ◌||◌, ltb, ◌==◌, if◌then◌else◌, ◌>>=◌, ℕ,
}
use db_operator.Base.Exec.{Exec, pure, raise, lift, wrapping}
use db_operator.Base.Exec.{◌>>=◌ as and_then}
use db_operator.Base.Maps.{lookup, store}
use db_operator.Interfaces.Funk.{Funk}
use db_operator.Interfaces.Sql.{Sql}
use db_operator.Interfaces.Versions.{Versions}
use db_operator.Api.{DbPriv}
use db_operator.Postgres.Select.{scan_one, loaded}
use db_operator.Postgres.Statements.{concat}
use db_operator.Postgres.Reconciler.{Changes, done, then_changed}
use db_operator.MySql.Words.{all_privs}
use db_operator.MySql.ShowGrants.{read_grant}
use db_operator.MySql.Statements.{privileges_revoke, privileges_grant}
use db_operator.MySql.Unpack.{PrivMap, all_objects, privileges_unpack}
use db_operator.MySql.Server.{ServerInfo, at_host}
use db_operator.MySql.Queries.{get_server_info, get_tls_requires}

abbrev pub append_privs : Text → List Text → PrivMap → PrivMap
append_privs on privs grants = elim (lookup on grants) [
  | none ↦ store on privs grants
  | some before ↦ store on (before ++ privs) grants
]

abbrev pub wanted : PrivMap → Text → List Text
wanted m db_table = elim (lookup db_table m) [ none ↦ [] | some privs ↦ privs ]

module _ ⦃funk : Funk⦄ ⦃db : Sql⦄ where
  open db use {Conn, World, Value, query, exec, scan_string}

  unfoldable pub read_grants : List (List Value) → PrivMap → Result PrivMap
  read_grants [] grants = ok grants
  read_grants (row ∷ rows) grants = do
    grant ← loaded (scan_one scan_string row)
    (on, privs) ← read_grant grant
    read_grants rows (append_privs on privs grants)

  unfoldable pub get_privileges : Conn → Text → Text → Exec World PrivMap
  unfolding read_grants
  get_privileges conn user_name host =
      and_then
        (wrapping (
          query conn (concat (codes "SHOW GRANTS for " ∷ at_host user_name host ∷ codes ";" ∷ []))
            []))
        (λ rows. lift (read_grants rows []))

  -- a long list must be the list of all privileges
  unfoldable pub shorten : List Text → Result (List Text)
  shorten cur =
      if ltb 50 (length cur)
      then (if is_empty (funk.subtract all_privs cur) then ok (codes "ALL" ∷ []) else panic)
      else ok cur

  -- the grant option, and the privileges without the first ones if it is there
  unfoldable pub split_grant : List Text → Bool × List Text
  split_grant cur = elim (funk.index_of cur (codes "GRANT")) [
    | none ↦ (false, cur)
    | some i ↦ (true, funk.drop_string cur i)
  ]

  -- `err` is stale here: an error of the revocation is dropped, and only a panic ends the loop
  abbrev after_revoke : Result (Unit {0}) → World → Exec World Bool
  after_revoke panic w _ = (panic, w)
  after_revoke _ w _ = (ok true, w)

  unfoldable pub revoke_from : Conn → Text → Text → PrivMap → Text → List Text → Exec World Bool
  unfolding split_grant
  revoke_from conn user host desired db_table cur w =
      let (grant_option, held) = split_grant cur in
      let to_revoke = funk.subtract held (wanted desired db_table) in
      let out = privileges_revoke conn user host db_table to_revoke grant_option w in
      if is_empty to_revoke then (ok false, w) else after_revoke out.0 out.1 w

  -- the first loop: whether something changed, and the current privileges as the loop leaves them
  unfoldable pub revoke_surplus :
      Conn → Text → Text → PrivMap → PrivMap → Exec World (Bool × PrivMap)
  unfolding shorten revoke_from
  revoke_surplus conn user host desired [] = pure (false, [])
  revoke_surplus conn user host desired ((db_table, cur) ∷ rest) =
      and_then (lift (shorten cur)) λ held.
        and_then (revoke_from conn user host desired db_table held) λ here.
          and_then (revoke_surplus conn user host desired rest)
            λ later. pure (here || later.0, (db_table, held) ∷ later.1)

  -- the second loop
  unfoldable pub grant_missing :
      Conn → Text → Text → PrivMap → PrivMap → Bool → World → Changes World
  grant_missing conn user host cur [] changed w = done changed w
  grant_missing conn user host cur ((db_table, privs) ∷ rest) changed w =
      let to_grant = funk.subtract privs (wanted cur db_table) in
      let out = privileges_grant conn user host db_table to_grant w in
      if is_empty to_grant
      then grant_missing conn user host cur rest changed w
      else then_changed (λ c. grant_missing conn user host cur rest c) changed out.0 out.1

  -- what follows the first loop
  abbrev pub then_grant :
      Conn → Text → Text → PrivMap → Result (Bool × PrivMap) × World → Changes World
  then_grant conn user host desired (ok (changed, held), w) =
      grant_missing conn user host held desired changed w
  then_grant conn user host desired (err e, w) = (false, err e, w)
  then_grant conn user host desired (panic, w) = (false, panic, w)

  -- both loops
  unfoldable pub update_privileges : Conn → Text → Text → PrivMap → PrivMap → World → Changes World
  unfolding revoke_surplus grant_missing
  update_privileges conn user host cur desired w =
      then_grant conn user host desired (revoke_surplus conn user host desired cur w)

-- the server privileges are an entry for `*.*`
unfoldable pub all_entries : Text → List DbPriv → List DbPriv
all_entries server_privs db_privs =
    if is_empty server_privs
    then db_privs
    else db_privs
      ++ record {
        scope = all_objects;
        privs = server_privs;
        default_privs = [];
        priv_type = [];
        grantor = none;
      }
        ∷ []

module _ ⦃versions : Versions⦄ ⦃funk : Funk⦄ ⦃db : Sql⦄ where
  open db use {Conn, World}

  -- what `UpdateUserPrivs` reads before it changes anything: current and desired privileges
  unfoldable pub plan_user_privs :
      Conn → Text → Text → Text → List DbPriv → Exec World (PrivMap × PrivMap)
  plan_user_privs conn user host server_privs db_privs =
      and_then (wrapping (get_server_info conn)) λ si.
        and_then (wrapping (get_tls_requires conn si user host)) λ _.
          and_then (wrapping (get_privileges conn user host)) λ cur.
            and_then
              (wrapping (lift (privileges_unpack (all_entries server_privs db_privs) si.mode)))
              λ desired. pure (cur, desired)

  unfoldable pub update_user_privs : Conn → Text → Text → List DbPriv → World → Changes World
  update_user_privs conn user_name server_privs db_privs w =
      let host = codes "%" in
      let planned = plan_user_privs conn user_name host server_privs db_privs w in
      elim planned.0 [
        | ok (cur, desired) ↦ update_privileges conn user_name host cur desired planned.1
        | err e ↦ (false, err e, planned.1)
        | panic ↦ (false, panic, planned.1)
      ]
