-- ===== src/Postgres/Users/RoleAttrs.antt =====
-- When `UpdateUserPrivs` finds the flags of a role changed.
use db_operator.Base.{
  All, Text, codes, text_eq, text_eq_iff, has_prefix, member, List, [], ◌∷◌, none, some, true,
  false, ◌≡◌, ◌↔◌, refl, arith,
}
use db_operator.Interfaces.Sql.{Sql}
use db_operator.Postgres.Privileges.{authid_column}
use db_operator.Postgres.Users.{found_bool, column, flag_differs, server_privs_changing}

-- a flag that begins with NO is no key of `PRIV_TO_AUTHID_COLUMN`
authid_column-negative :
    (flag : Text) → has_prefix flag (codes "NO") ≡ true → authid_column flag ≡ []
unfolding authid_column has_prefix text_eq
authid_column-negative flag h = ground arith

module _ ⦃db : Sql⦄ where
  open db use {Value, as_bool}

  flag_differs-negative :
      (row : List (Text × Value)) (flag : Text)
      → column [] row ≡ none
      → has_prefix flag (codes "NO") ≡ true
      → flag_differs row flag ≡ true
  unfolding flag_differs
  flag_differs-negative row flag unnamed negative =
      ground (arith, authid_column-negative flag negative, unnamed)

  -- A list with a flag that begins with NO always counts as changing, whatever the role's row holds,
  -- as long as no column of the row has the empty name. So `UpdateUserPrivs` alters such a role in
  -- every reconciliation, also when it already is as the flag asks.
  pub server_privs_changing-negative :
      (row : List (Text × Value)) (flags : List Text) (flag : Text)
      → column [] row ≡ none
      → member flag flags ≡ true
      → has_prefix flag (codes "NO") ≡ true
      → server_privs_changing row flags ≡ true
  unfolding server_privs_changing member
  server_privs_changing-negative row [] flag unnamed m negative = cc
  server_privs_changing-negative row (f ∷ flags) flag unnamed m negative = ground (
    arith,
    text_eq_iff f flag,
    flag_differs-negative row flag unnamed negative,
    server_privs_changing-negative row flags flag unnamed,
  )

  abbrev pub Holds : (List (Text × Value)) → Text → Type 0
  Holds row flag = found_bool (column (authid_column flag) row) ≡ some true

  flag_differs-positive :
      (row : List (Text × Value)) (flag : Text)
      → has_prefix flag (codes "NO") ≡ false
      → (flag_differs row flag ≡ false) ↔ Holds row flag
  unfolding flag_differs
  flag_differs-positive row flag positive = ground arith

  -- With no flag that begins with NO, the flags count as unchanged exactly when the row holds true
  -- in the column of each of them.
  pub server_privs_changing-positive :
      (row : List (Text × Value)) (flags : List Text)
      → All (λ flag. has_prefix flag (codes "NO") ≡ false) flags
      → (server_privs_changing row flags ≡ false) ↔ All (Holds row) flags
  unfolding server_privs_changing
  server_privs_changing-positive row [] _ = (λ _. tt, λ _. refl)
  server_privs_changing-positive row (f ∷ flags) (positive, rest) =
      ground
        (arith, flag_differs-positive row f positive, server_privs_changing-positive row flags rest)
