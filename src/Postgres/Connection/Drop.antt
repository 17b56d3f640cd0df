-- ===== src/Postgres/Connection/Drop.antt =====
-- What must have happened before a user is dropped.
pub mod Done
use db_operator.Base.{
  Text, List, [], ◌∷◌, ok, ◌⊎◌, inl, inr, Option, none, some, is_empty, Bool, true, false, not,
  ◌&&◌, if◌then◌else◌, exclusive_options, ◌≡◌, refl, ap, ◌∙◌,
}
use db_operator.Base.Exec.{Exec, pure, raise, ◌>>=◌, ◌>>◌, bind-ok}
use db_operator.Interfaces.Funk.{Funk}
use db_operator.Interfaces.Pq.{Pq}
use db_operator.Interfaces.Sql.{Sql}
use db_operator.Api.{DropUserOptions, UserSpec}
use db_operator.Postgres.Constructors.{ConnectionGetter}
use db_operator.Postgres.Users.{get_databases_user_has_access_to, revoke_all_db_privs}
use db_operator.Postgres.Connection.{
  prepare, prepare_drop, drop_owned, drop_owned_statement, reassign_statement, drop_statement,
  drop_user,
}

module _ {W : Type 0} where
  -- a step that is done without an error if it is asked for
  abbrev pub DoneIf : Bool → Exec W (Unit {0}) → W → W → Type 0
  DoneIf true step w w' = step w ≡ (ok tt, w')
  DoneIf false step w w' = w ≡ w'

  DoneIf-if :
      (asked : Bool) (step : Exec W (Unit {0})) (w w' : W)
      → (if asked then step else pure tt) w ≡ (ok tt, w')
      → DoneIf asked step w w'
  DoneIf-if true step w w' h = h
  DoneIf-if false step w w' h = ap (λ r. r.1) h

  DoneIf-unless :
      (idle : Bool) (step : Exec W (Unit {0})) (w w' : W)
      → (if idle then pure tt else step) w ≡ (ok tt, w')
      → DoneIf (not idle) step w w'
  DoneIf-unless true step w w' h = ap (λ r. r.1) h
  DoneIf-unless false step w w' h = h

module _ ⦃funk : Funk⦄ ⦃pq : Pq⦄ ⦃db : Sql⦄ (getter : ConnectionGetter) where
  open db use {Conn, World, exec}

  -- DROP OWNED was executed without an error in each database, on a connection to it
  abbrev pub OwnedDropped : Text → List Text → World → World → Type 0
  OwnedDropped user [] w w' = w ≡ w'
  OwnedDropped user (database ∷ databases) w w' =
      (conn : Conn) × (w₁ : World) × (w₂ : World) × (getter none (some database) w ≡ (ok conn, w₁))
      × (exec conn (drop_owned_statement getter user) [] w₁ ≡ (ok tt, w₂))
      × OwnedDropped user databases w₂ w'

  -- the same, in the databases that the user has access to
  abbrev pub OwnedDroppedIf : Bool → Conn → Text → World → World → Type 0
  OwnedDroppedIf false conn user w w' = w ≡ w'
  OwnedDroppedIf true conn user w w' =
      (databases : List Text) × (w₁ : World) × (get_databases_user_has_access_to conn user w
        ≡ (ok databases, w₁))
      × OwnedDropped user databases w₁ w'

  -- all that the options ask for, in its order
  abbrev pub Prepared : Conn → UserSpec → Option DropUserOptions → World → World → Type 0
  Prepared conn spec none w w' = w ≡ w'
  Prepared conn spec (some options) w w' =
      ((is_empty options.reassing_owned_to ≡ true) ⊎ (options.drop_owned ≡ false))
      × (w₁ : World) × (w₂ : World) × OwnedDroppedIf options.drop_owned conn spec.user_name w w₁
      × DoneIf (not (is_empty options.reassing_owned_to))
          (exec conn (reassign_statement getter spec.user_name options.reassing_owned_to) []) w₁ w₂
      × DoneIf (options.revoke_privileges && not (is_empty spec.db_privs))
          (revoke_all_db_privs conn spec.user_name spec.db_privs getter) w₂ w'

  drop_owned-OwnedDropped :
      (user : Text) (databases : List Text) (w w' : World)
      → drop_owned getter user databases w ≡ (ok tt, w')
      → OwnedDropped user databases w w'
  unfolding drop_owned
  drop_owned-OwnedDropped user [] w w' h = ap (λ r. r.1) h
  drop_owned-OwnedDropped user (database ∷ databases) w w' h =
      let (conn, w₁, connected, rest) =
        bind-ok (getter none (some database))
          (λ c. exec c (drop_owned_statement getter user) [] >> drop_owned getter user databases) w
          w' tt h in
      let (_, w₂, executed, later) =
        bind-ok (exec conn (drop_owned_statement getter user) [])
          (λ _. drop_owned getter user databases) w₁ w' tt rest in
      (conn, w₁, w₂, connected, executed, drop_owned-OwnedDropped user databases w₂ w' later)

  abbrev pub owned_step : Conn → Text → Exec World (Unit {0})
  owned_step conn user =
      get_databases_user_has_access_to conn user >>= λ databases. drop_owned getter user databases

  owned_step-OwnedDroppedIf :
      (asked : Bool) (conn : Conn) (user : Text) (w w' : World)
      → (if asked then owned_step conn user else pure tt) w ≡ (ok tt, w')
      → OwnedDroppedIf asked conn user w w'
  owned_step-OwnedDroppedIf false conn user w w' h = ap (λ r. r.1) h
  owned_step-OwnedDroppedIf true conn user w w' h =
      let (databases, w₁, listed, rest) =
        bind-ok (get_databases_user_has_access_to conn user) (drop_owned getter user) w w' tt h in
      (databases, w₁, listed, drop_owned-OwnedDropped user databases w₁ w' rest)

  -- the steps behind the test of the options
  abbrev pub all_steps : Conn → UserSpec → DropUserOptions → Exec World (Unit {0})
  all_steps conn spec options = do
    (if options.drop_owned then owned_step conn spec.user_name else pure tt)
    (if is_empty options.reassing_owned_to
        then pure tt
        else exec conn (reassign_statement getter spec.user_name options.reassing_owned_to) [])
    (if options.revoke_privileges && not (is_empty spec.db_privs)
        then revoke_all_db_privs conn spec.user_name spec.db_privs getter
        else pure tt)

  all_steps-Prepared :
      (conn : Conn) (spec : UserSpec) (options : DropUserOptions) (w w' : World)
      → (is_empty options.reassing_owned_to ≡ true) ⊎ (options.drop_owned ≡ false)
      → all_steps conn spec options w ≡ (ok tt, w')
      → Prepared conn spec (some options) w w'
  all_steps-Prepared conn spec options w w' one h =
      let owned : Exec World (Unit {0}) =
        if options.drop_owned then owned_step conn spec.user_name else pure tt in
      let handed =
        exec conn (reassign_statement getter spec.user_name options.reassing_owned_to) [] in
      let reassigned : Exec World (Unit {0}) =
        if is_empty options.reassing_owned_to then pure tt else handed in
      let asked = options.revoke_privileges && not (is_empty spec.db_privs) in
      let revoke = revoke_all_db_privs conn spec.user_name spec.db_privs getter in
      let revoked : Exec World (Unit {0}) = if asked then revoke else pure tt in
      let (_, w₁, first, rest) = bind-ok owned (λ _. reassigned >> revoked) w w' tt h in
      let (_, w₂, second, third) = bind-ok reassigned (λ _. revoked) w₁ w' tt rest in
      (
        one,
        w₁,
        w₂,
        owned_step-OwnedDroppedIf options.drop_owned conn spec.user_name w w₁ first,
        DoneIf-unless (is_empty options.reassing_owned_to) handed w₁ w₂ second,
        DoneIf-if asked revoke w₂ w' third,
      )

  guarded_steps :
      (blank owned : Bool) (steps : Exec World (Unit {0})) (w w' : World)
      → (if not blank && owned then raise exclusive_options else steps) w ≡ (ok tt, w')
      → ((blank ≡ true) ⊎ (owned ≡ false)) × (steps w ≡ (ok tt, w'))
  guarded_steps true owned steps w w' h = (inl refl, h)
  guarded_steps false false steps w w' h = (inr refl, h)
  guarded_steps false true steps w w' h = cc

  prepare-Prepared :
      (conn : Conn) (spec : UserSpec) (options : Option DropUserOptions) (w w' : World)
      → prepare getter conn spec options w ≡ (ok tt, w')
      → Prepared conn spec options w w'
  unfolding prepare_drop
  prepare-Prepared conn spec none w w' h = ap (λ r. r.1) h
  prepare-Prepared conn spec (some options) w w' h =
      let (one, steps) =
        guarded_steps (is_empty options.reassing_owned_to) options.drop_owned
          (all_steps conn spec options) w w' h in
      all_steps-Prepared conn spec options w w' one steps

  -- When a user is dropped without an error, there was a connection of the server's own user, and
  -- what the options ask for was done without an error, in this order: not both DROP OWNED and
  -- REASSIGN OWNED are asked for; DROP OWNED was executed in each database that the user had access
  -- to, on a connection to it; then REASSIGN OWNED; then the revocation of the database privileges of
  -- the specification, if there are any. What is not asked for left the state as it was, and DROP USER
  -- was the last statement.
  pub drop_user-ok :
      (spec : UserSpec) (w w' : World)
      → drop_user getter spec w ≡ (ok tt, w')
      → (conn : Conn) × (w₁ : World) × (w₂ : World) × (getter none none w ≡ (ok conn, w₁))
        × Prepared conn spec spec.drop_user_options w₁ w₂
        × (exec conn (drop_statement getter spec.user_name) [] w₂ ≡ (ok tt, w'))
  unfolding drop_user
  drop_user-ok spec w w' h =
      let (conn, w₁, connected, rest) =
        bind-ok (getter none none)
          (λ c.
            prepare getter c spec spec.drop_user_options
            >> exec c (drop_statement getter spec.user_name) [])
          w w' tt h in
      let (_, w₂, prepared, dropped) =
        bind-ok (prepare getter conn spec spec.drop_user_options)
          (λ _. exec conn (drop_statement getter spec.user_name) []) w₁ w' tt rest in
      (
        conn,
        w₁,
        w₂,
        connected,
        prepare-Prepared conn spec spec.drop_user_options w₁ w₂ prepared,
        dropped,
      )
