-- ===== src/MySql/Tests/Guards.antt =====
-- Names that are refused, and a server on which every statement fails.
use db_operator.Base.{
  keep, codes, text_eq, member, ok, err, [], ◌∷◌, true, false, ◌≡◌, ◌⊎◌, ◌↔◌, refl, Error, external,
}
use db_operator.Interfaces.Funk.{reference_funk}
use db_operator.Interfaces.Sql.{Sql}
use db_operator.MySql.Unpack.{all_objects}
use db_operator.MySql.Tests.{one_db, select, host, clerk}
use db_operator.MySql.Statements.{
  check_names, is_quoted, privileges_revoke, privileges_grant, revoke_statement, grant_statement,
}
use db_operator.MySql.Users.Guards.{check_names_ok, Allowed, Refused, guarded_statements}

check_names_ok_example : (check_names clerk host (codes "`shop`.*") ≡ ok tt) ↔ (
    (is_quoted host ≡ ok false)
    × (is_quoted clerk ≡ ok false)
    × ((text_eq (codes "`shop`.*") all_objects ≡ true) ⊎ (is_quoted (codes "`shop`.*") ≡ ok true)))
check_names_ok_example = check_names_ok clerk host (codes "`shop`.*")

guarded_statements_example :
    (Allowed clerk host (codes "shop.*")
      → (privileges_revoke ⦃funk = reference_funk⦄ ⦃db = one_db⦄ tt clerk host
            (codes "shop.*")
            (select ∷ [])
            false
            true
          ≡ one_db.exec tt
              (revoke_statement ⦃funk = reference_funk⦄ ⦃db = one_db⦄ clerk host
                (codes "shop.*")
                (select ∷ []))
              []
              true)
        × (privileges_grant ⦃funk = reference_funk⦄ ⦃db = one_db⦄ tt clerk host
              (codes "shop.*")
              (select ∷ [])
              true
            ≡ one_db.exec tt
                (grant_statement ⦃funk = reference_funk⦄ ⦃db = one_db⦄ clerk host
                  (codes "shop.*")
                  (select ∷ []))
                []
                true))
    × (¬ Allowed clerk host (codes "shop.*")
        → Refused ⦃funk = reference_funk⦄ ⦃db = one_db⦄ tt clerk host
            (privileges_revoke ⦃funk = reference_funk⦄ ⦃db = one_db⦄ tt clerk host
              (codes "shop.*")
              (select ∷ [])
              true)
            true
          × Refused ⦃funk = reference_funk⦄ ⦃db = one_db⦄ tt clerk host
              (privileges_grant ⦃funk = reference_funk⦄ ⦃db = one_db⦄ tt clerk host
                (codes "shop.*")
                (select ∷ []))
              true)
guarded_statements_example =
    guarded_statements ⦃funk = reference_funk⦄ ⦃db = one_db⦄ tt clerk host (codes "shop.*")
      (select ∷ []) true true

abbrev down : Error
down = external (codes "connection refused")

abbrev broken_db : Sql
broken_db = record one_db { exec = λ c q args w. (err down, w) }

broken :
    privileges_revoke ⦃funk = reference_funk⦄ ⦃db = broken_db⦄ tt clerk host all_objects
      (select ∷ [])
      false
      true
    ≡ (err down, true)
unfolding privileges_revoke check_names is_quoted text_eq
broken = refl

all_surplus : (reference_funk.subtract (select ∷ []) []) ≡ select ∷ []
unfolding member keep
all_surplus = refl
