-- ===== src/Postgres/Connection/Drop/Done.antt =====
-- When a user is dropped without an error.
use db_operator.Base.{
  Text, List, [], ◌∷◌, ok, ◌⊎◌, inl, inr, Option, none, some, is_empty, Bool, true, false, not,
  ◌&&◌, if◌then◌else◌, exclusive_options, ◌≡◌, refl, ap, ◌∙◌,
}
use db_operator.Base.Exec.{Exec, pure, raise, ◌>>◌}
use db_operator.Interfaces.Funk.{Funk}
use db_operator.Interfaces.Pq.{Pq}
use db_operator.Interfaces.Sql.{Sql}
use db_operator.Api.{DropUserOptions, UserSpec}
use db_operator.Postgres.Constructors.{ConnectionGetter}
use db_operator.Postgres.Users.{revoke_all_db_privs}
use db_operator.Postgres.Connection.{
  prepare, prepare_drop, drop_owned, reassign_statement, drop_statement, drop_user,
}
use db_operator.Postgres.Connection.Drop.{
  DoneIf, OwnedDropped, OwnedDroppedIf, Prepared, owned_step, all_steps,
}

module _ {W : Type 0} where
  if-DoneIf :
      (asked : Bool) (step : Exec W (Unit {0})) (w w' : W)
      → DoneIf asked step w w'
      → (if asked then step else pure tt) w ≡ (ok tt, w')
  if-DoneIf true step w w' h = h
  if-DoneIf false step w w' h = ap (λ v. (ok tt, v)) h

  unless-DoneIf :
      (idle : Bool) (step : Exec W (Unit {0})) (w w' : W)
      → DoneIf (not idle) step w w'
      → (if idle then pure tt else step) w ≡ (ok tt, w')
  unless-DoneIf true step w w' h = ap (λ v. (ok tt, v)) h
  unless-DoneIf false step w w' h = h

module _ ⦃funk : Funk⦄ ⦃pq : Pq⦄ ⦃db : Sql⦄ (getter : ConnectionGetter) where
  open db use {Conn, World, exec}

  OwnedDropped-drop_owned :
      (user : Text) (databases : List Text) (w w' : World)
      → OwnedDropped getter user databases w w'
      → drop_owned getter user databases w ≡ (ok tt, w')
  unfolding drop_owned
  OwnedDropped-drop_owned user [] w w' h = ap (λ v. (ok tt, v)) h
  OwnedDropped-drop_owned user (database ∷ databases) w w'
        (conn, w₁, w₂, connected, executed, rest) =
      rw (connected, executed) (OwnedDropped-drop_owned user databases w₂ w' rest)

  OwnedDroppedIf-owned_step :
      (asked : Bool) (conn : Conn) (user : Text) (w w' : World)
      → OwnedDroppedIf getter asked conn user w w'
      → (if asked then owned_step getter conn user else pure tt) w ≡ (ok tt, w')
  OwnedDroppedIf-owned_step false conn user w w' h = ap (λ v. (ok tt, v)) h
  OwnedDroppedIf-owned_step true conn user w w' (databases, w₁, listed, rest) =
      rw listed (OwnedDropped-drop_owned user databases w₁ w' rest)

  sequence-ok :
      (m k : Exec World (Unit {0})) (w w₁ w' : World)
      → m w ≡ (ok tt, w₁)
      → k w₁ ≡ (ok tt, w')
      → (m >> k) w ≡ (ok tt, w')
  sequence-ok m k w w₁ w' first second = rw first second

  Prepared-all_steps :
      (conn : Conn) (spec : UserSpec) (options : DropUserOptions) (w w' : World)
      → Prepared getter conn spec (some options) w w'
      → all_steps getter conn spec options w ≡ (ok tt, w')
  Prepared-all_steps conn spec options w w' (one, w₁, w₂, first, second, third) =
      let handed =
        exec conn (reassign_statement getter spec.user_name options.reassing_owned_to) [] in
      let revoke = revoke_all_db_privs conn spec.user_name spec.db_privs getter in
      let asked = options.revoke_privileges && not (is_empty spec.db_privs) in
      let reassigned : Exec World (Unit {0}) =
        if is_empty options.reassing_owned_to then pure tt else handed in
      let revoked : Exec World (Unit {0}) = if asked then revoke else pure tt in
      let owned : Exec World (Unit {0}) =
        if options.drop_owned then owned_step getter conn spec.user_name else pure tt in
      sequence-ok owned (reassigned >> revoked) w w₁ w'
        (OwnedDroppedIf-owned_step options.drop_owned conn spec.user_name w w₁ first)
        (sequence-ok reassigned revoked w₁ w₂ w'
          (unless-DoneIf (is_empty options.reassing_owned_to) handed w₁ w₂ second)
          (if-DoneIf asked revoke w₂ w' third))

  unguarded :
      (blank owned : Bool) (steps : Exec World (Unit {0})) (w : World)
      → (blank ≡ true) ⊎ (owned ≡ false)
      → (if not blank && owned then raise exclusive_options else steps) w ≡ steps w
  unguarded true owned steps w one = refl
  unguarded false owned steps w (inl e) = cc
  unguarded false owned steps w (inr e) = rw e refl

  Prepared-prepare :
      (conn : Conn) (spec : UserSpec) (options : Option DropUserOptions) (w w' : World)
      → Prepared getter conn spec options w w'
      → prepare getter conn spec options w ≡ (ok tt, w')
  unfolding prepare_drop
  Prepared-prepare conn spec none w w' h = ap (λ v. (ok tt, v)) h
  Prepared-prepare conn spec (some options) w w' h =
      unguarded (is_empty options.reassing_owned_to) options.drop_owned
        (all_steps getter conn spec options) w h.0
      ∙ Prepared-all_steps conn spec options w w' h

  -- When there is a connection of the server's own user, and on it all that the options ask for can be
  -- done without an error in their order, which they never can when DROP OWNED and REASSIGN OWNED are
  -- both asked for, and then DROP USER: the user is dropped without an error.
  pub drop_user-done :
      (spec : UserSpec) (conn : Conn) (w w₁ w₂ w' : World)
      → getter none none w ≡ (ok conn, w₁)
      → Prepared getter conn spec spec.drop_user_options w₁ w₂
      → exec conn (drop_statement getter spec.user_name) [] w₂ ≡ (ok tt, w')
      → drop_user getter spec w ≡ (ok tt, w')
  unfolding drop_user
  drop_user-done spec conn w w₁ w₂ w' connected prepared dropped =
      rw (drop_user, connected)
        (sequence-ok (prepare getter conn spec spec.drop_user_options)
          (exec conn (drop_statement getter spec.user_name) []) w₁ w₂ w'
          (Prepared-prepare conn spec spec.drop_user_options w₁ w₂ prepared) dropped)
