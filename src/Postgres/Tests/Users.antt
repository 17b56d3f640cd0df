-- ===== src/Postgres/Tests/Users.antt =====
-- Dropping a user.
use db_operator.Base.{Text, codes, ok, List, [], ◌∷◌, Option, none, some, true, false, ◌≡◌, refl}
use db_operator.Base.Exec.{Exec}
use db_operator.Interfaces.Funk.{reference_funk}
use db_operator.Interfaces.Pq.{reference_pq}
use db_operator.Api.{DropUserOptions, UserSpec}
use db_operator.Interfaces.Sql.{Sql}
use db_operator.Postgres.Connection.{drop_user, prepare_drop, drop_statement, reassign_statement}
use db_operator.Postgres.Connection.Drop.{Prepared, drop_user-ok}
use db_operator.Postgres.Connection.Drop.Done.{drop_user-done}
use db_operator.Base.{inr}
use db_operator.Postgres.Tests.{privs_db}

abbrev one_getter : Option Text → Option Text → Exec (List Text) (Unit {0})
one_getter user_name database_name w = (ok tt, w)

abbrev clerk_spec : Option DropUserOptions → UserSpec
clerk_spec options = record {
  user_name = codes "clerk";
  secret_name = codes "clerk";
  generate_secret = false;
  password_key = [];
  ca_cert_key = [];
  tls_crt_key = [];
  tls_key_key = [];
  db_server_name = codes "server";
  db_privs = [];
  server_privs = [];
  drop_on_deletion = true;
  drop_user_options = options;
}

abbrev to_owner : DropUserOptions
to_owner = record {
  revoke_privileges = false;
  drop_owned = false;
  reassing_owned_to = codes "owner";
}

-- a server that takes every statement, and keeps them, the last one first
abbrev log_db : Sql
log_db = record privs_db { exec = λ c q args w. (ok tt, q ∷ w) }

abbrev both_statements : List Text
both_statements =
    drop_statement ⦃funk = reference_funk⦄ ⦃pq = reference_pq⦄ ⦃db = log_db⦄ one_getter
      (codes "clerk")
    ∷ reassign_statement ⦃funk = reference_funk⦄ ⦃pq = reference_pq⦄ ⦃db = log_db⦄ one_getter
        (codes "clerk") (codes "owner")
    ∷ []

dropped :
    drop_user ⦃funk = reference_funk⦄ ⦃pq = reference_pq⦄ ⦃db = log_db⦄ one_getter
      (clerk_spec (some to_owner))
      []
    ≡ (ok tt, both_statements)
unfolding drop_user prepare_drop
dropped = refl

reassigned :
    Prepared ⦃funk = reference_funk⦄ ⦃pq = reference_pq⦄ ⦃db = log_db⦄ one_getter tt
      (clerk_spec (some to_owner))
      (some to_owner)
      []
      (reassign_statement ⦃funk = reference_funk⦄ ⦃pq = reference_pq⦄ ⦃db = log_db⦄ one_getter
          (codes "clerk")
          (codes "owner")
        ∷ [])
reassigned = (inr refl, [], _, refl, refl, refl)

drop_user-done_example :
    drop_user ⦃funk = reference_funk⦄ ⦃pq = reference_pq⦄ ⦃db = log_db⦄ one_getter
      (clerk_spec (some to_owner))
      []
    ≡ (ok tt, both_statements)
drop_user-done_example =
    drop_user-done ⦃funk = reference_funk⦄ ⦃pq = reference_pq⦄ ⦃db = log_db⦄ one_getter
      (clerk_spec (some to_owner)) tt [] [] _ both_statements refl reassigned refl

drop_user-ok_example :
    (conn : Unit {0}) × (w₁ : List Text) × (w₂ : List Text) × (one_getter none none []
      ≡ (ok conn, w₁))
    × Prepared ⦃funk = reference_funk⦄ ⦃pq = reference_pq⦄ ⦃db = log_db⦄ one_getter conn
        (clerk_spec (some to_owner))
        (some to_owner)
        w₁
        w₂
    × (log_db.exec conn
          (drop_statement ⦃funk = reference_funk⦄ ⦃pq = reference_pq⦄ ⦃db = log_db⦄ one_getter
            (codes "clerk"))
          []
          w₂
        ≡ (ok tt, both_statements))
drop_user-ok_example =
    drop_user-ok ⦃funk = reference_funk⦄ ⦃pq = reference_pq⦄ ⦃db = log_db⦄ one_getter
      (clerk_spec (some to_owner)) [] both_statements dropped
