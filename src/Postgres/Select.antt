-- ===== src/Postgres/Select.antt =====
-- dbservers/query_utils/query_utils.go: the first column of a query.
use db_operator.Base.{
  Text, Result, ok, err, panic, cannot_load, got_null, no_rows, List, [], ◌∷◌, Option, none, some,
  Bool, ℕ,
}
use db_operator.Base.Exec.{Exec, lift, ◌>>=◌}
use db_operator.Interfaces.Sql.{Sql}

-- `rows.Scan(&value)` of a row, which fails unless the row has one column
abbrev pub scan_one {ℓ κ} :
    {V : Type ℓ} {A : Type κ} → (V → Option (Option A)) → List V → Option (Option A)
scan_one scan [] = none
scan_one scan (v ∷ []) = scan v
scan_one scan (v ∷ w ∷ vs) = none

-- a value that must not be NULL
abbrev pub not_null {ℓ} : {A : Type ℓ} → Option (Option A) → Result A
not_null none = err cannot_load
not_null (some none) = err got_null
not_null (some (some a)) = ok a

-- NULL is the empty string
abbrev pub null_to_empty : Option (Option Text) → Result Text
null_to_empty none = err cannot_load
null_to_empty (some none) = ok []
null_to_empty (some (some a)) = ok a

module _ {ℓ κ} {V : Type ℓ} {A : Type κ} where
  unfoldable pub first_value : (V → Option (Option A)) → List (List V) → Result A
  first_value scan [] = err no_rows
  first_value scan (row ∷ rows) = not_null (scan_one scan row)

  -- every row, up to the first that cannot be read
  unfoldable pub all_rows : (List V → Result A) → List (List V) → Result (List A)
  all_rows read [] = ok []
  all_rows read (row ∷ rows) =
      let rest = all_rows read rows in
      elim (read row) [
        | ok a ↦ elim rest [ ok as' ↦ ok (a ∷ as') | err e ↦ err e | panic ↦ panic ]
        | err e ↦ err e
        | panic ↦ panic
      ]

-- `Scan` into a variable that cannot be NULL
abbrev pub loaded {ℓ} : {A : Type ℓ} → Option (Option A) → Result A
loaded none = err cannot_load
loaded (some none) = err cannot_load
loaded (some (some a)) = ok a

unfoldable pub first_or_empty {ℓ} :
    {V : Type ℓ} → (V → Option (Option Text)) → List (List V) → Result Text
first_or_empty scan [] = err no_rows
first_or_empty scan (row ∷ rows) = null_to_empty (scan_one scan row)

module _ ⦃db : Sql⦄ where
  open db use {Conn, World, query, scan_string, scan_int, scan_bool}

  unfoldable pub select_first_value_string : Conn → Text → List Text → Exec World Text
  unfolding first_value
  select_first_value_string conn q args = do
    rows ← query conn q args
    lift (first_value scan_string rows)

  unfoldable pub select_first_value_string_null_to_empty : Conn → Text → List Text → Exec World Text
  unfolding first_or_empty
  select_first_value_string_null_to_empty conn q args = do
    rows ← query conn q args
    lift (first_or_empty scan_string rows)

  unfoldable pub select_first_value_int : Conn → Text → List Text → Exec World ℕ
  unfolding first_value
  select_first_value_int conn q args = do rows ← query conn q args; lift (first_value scan_int rows)

  unfoldable pub select_first_value_bool : Conn → Text → List Text → Exec World Bool
  unfolding first_value
  select_first_value_bool conn q args = do
    rows ← query conn q args
    lift (first_value scan_bool rows)

  unfoldable pub select_first_value_string_slice : Conn → Text → List Text → Exec World (List Text)
  unfolding all_rows
  select_first_value_string_slice conn q args = do
    rows ← query conn q args
    lift (all_rows (λ row. not_null (scan_one scan_string row)) rows)
