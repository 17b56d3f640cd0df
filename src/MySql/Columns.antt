-- ===== src/MySql/Columns.antt =====
-- Splitting lists of privileges, and grants on columns, in dbservers/mysql/privileges.go.
pub mod Pieces
pub mod Lost
use db_operator.Base.{
  Text, codes, text_eq, contains_text, contains_byte, split, join, trim_space, trim_byte,
  trim_right, sort_texts, get_elem?, length, take, drop, is_empty, Result, ok, err, panic, or_panic,
  List, [], ◌∷◌, ◌++◌, map, Option, none, some, Bool, true, false, ℕ, suc, ◌-◌, ◌==◌, ltb,
  if◌then◌else◌, ◌>>=◌,
}

-- with a separator of one byte
unfoldable pub rsplit : Text → ℕ → ℕ → List Text
rsplit s sep count =
    let parts = split s sep in
    let splits_available = length parts - 1 in
    let max_splits = if ltb splits_available count then splits_available else count in
    let split_loc = length parts - max_splits in
    if count == 0
    then s ∷ []
    else if splits_available == 0
    then s ∷ []
    else join (take split_loc parts) (sep ∷ []) ∷ drop split_loc parts

-- the last item, if it is not empty
abbrev pub last_item : Text → List Text
last_item [] = []
last_item (c ∷ s) = (c ∷ s) ∷ []

-- the loop of `parsePrivPiece`: whether it is in parentheses, the current item and the stripped one
unfoldable pub parse_items : Bool → Text → Text → Text → List Text × List Text
parse_items in_parens item stripped [] = (last_item item, last_item stripped)
parse_items true item stripped (c ∷ s) =
    parse_items (if c == b')' then false else true) (item ++ c ∷ []) stripped s
parse_items false item stripped (c ∷ s) =
    let closed = parse_items false [] [] s in
    let opened = parse_items true (item ++ c ∷ []) stripped s in
    let longer = parse_items false (item ++ c ∷ []) (stripped ++ c ∷ []) s in
    if c == b','
    then (item ∷ closed.0, stripped ∷ closed.1)
    else if c == b'('
    then opened
    else longer

-- the items with their columns, and the items without
unfoldable pub parse_priv_piece : Text → List Text × List Text
unfolding parse_items
parse_priv_piece piece = parse_items false [] [] piece

-- the loop of `hasGrantOnCol` from index `n` on, with the start that was found before
unfoldable pub grant_on_col : Text → ℕ → Option ℕ → List Text → Option (ℕ × ℕ)
grant_on_col opening n start [] = none
grant_on_col opening n start (priv ∷ privs) =
    let start' = if contains_text priv opening then some n else start in
    let rest = grant_on_col opening (suc n) start' privs in
    elim start' [ none ↦ rest | some s ↦ if contains_byte b')' priv then some (s, n) else rest ]

-- the indices of the first and the last element of a grant on columns
unfoldable pub has_grant_on_col : List Text → Text → Option (ℕ × ℕ)
unfolding grant_on_col
has_grant_on_col privileges grant = grant_on_col (grant ++ codes " (") 0 none privileges

unfoldable pub sort_column_order : Text → Result Text
sort_column_order statement = do
  let tmp = split statement b'('
  priv_name ← or_panic (get_elem? tmp 0)
  columns_part ← or_panic (get_elem? tmp 1)
  let columns_str = trim_right (λ c. c == b')') columns_part
  let columns = map (λ col. trim_byte b'`' (trim_space col)) (split columns_str b',')
  ok (priv_name ++ (codes "(" ++ (join (sort_texts columns) (codes ", ") ++ codes ")")))

-- `copy(output, …)` copies nothing, since `output` is empty; so the index in the second branch is out
-- of range
unfoldable pub handle_grant_on_col : List Text → ℕ → ℕ → Result (List Text)
handle_grant_on_col privileges start end = if start == end then panic else do
  select_on_col ← sort_column_order (join (drop start (take (suc end) privileges)) (codes ", "))
  ok (select_on_col ∷ drop (suc end) privileges)

-- one round of `normalizeColGrants`
unfoldable pub normalize_grant : Text → List Text → Result (List Text)
unfolding has_grant_on_col handle_grant_on_col
normalize_grant grant privileges = elim (has_grant_on_col privileges grant) [
  | none ↦ ok privileges
  | some (start, end) ↦ handle_grant_on_col privileges start end
]

unfoldable pub normalize_col_grants : List Text → Result (List Text)
unfolding normalize_grant
normalize_col_grants privileges = do
  selected ← normalize_grant (codes "SELECT") privileges
  updated ← normalize_grant (codes "UPDATE") selected
  inserted ← normalize_grant (codes "INSERT") updated
  normalize_grant (codes "REFERENCES") inserted
