-- ===== src/MySql/Columns/Lost.antt =====
-- What the handling of grants on columns keeps of a list of privileges.
use db_operator.Base.{
  ◌>>=◌, ap, Option-cases, Text, codes, contains_text, contains_byte, length, drop, All, Result, ok,
  err, panic, List, [], ◌∷◌, ◌++◌, Option, none, some, true, false, ◌≡◌, ◌⊎◌, inl, inr, arith, ℕ,
  suc, ◌+◌, ◌<◌, ◌≤◌, ◌==◌, Bool-cases,
}
use db_operator.MySql.Columns.{grant_on_col, has_grant_on_col, handle_grant_on_col, normalize_grant}

-- a start that was found is not behind the index
abbrev Reached : Option ℕ → ℕ → Type 0
Reached none n = Unit
Reached (some i) n = i ≤ n

-- the indices stay in the list
grant_on_col_bounds :
    (opening : Text) (n : ℕ) (start : Option ℕ) (privs : List Text) (s e : ℕ)
    → Reached start n
    → grant_on_col opening n start privs ≡ some (s, e)
    → (s ≤ e) × (e < n + length privs)
unfolding grant_on_col
grant_on_col_bounds opening n start [] s e before h = cc
grant_on_col_bounds opening n none (priv ∷ privs) s e before h = ground (
  arith,
  grant_on_col_bounds opening (suc n) none privs s e tt,
  grant_on_col_bounds opening (suc n) (some n) privs s e (omega arith),
)
grant_on_col_bounds opening n (some k) (priv ∷ privs) s e before h = ground (
  arith,
  grant_on_col_bounds opening (suc n) (some k) privs s e (omega (arith, before)),
  grant_on_col_bounds opening (suc n) (some n) privs s e (omega arith),
)

handle-shape :
    (privs ns : List Text) (s e : ℕ)
    → s ≤ e
    → handle_grant_on_col privs s e ≡ ok ns
    → (t : Text) × (s < e) × (ns ≡ t ∷ drop (suc e) privs)
unfolding handle_grant_on_col
handle-shape privs ns s e h f = elim (Bool-cases (s == e)) [
  | inl same ↦ cc (rw (handle_grant_on_col, same) at f)
  | inr differ ↦ go (ground (arith, h, differ)) _ (rw (handle_grant_on_col, differ) at f)
]
  where
    go :
        s < e
        → (r : Result Text) → (r >>= λ x. ok (x ∷ drop (suc e) privs)) ≡ ok ns
        → (t : Text) × (s < e) × (ns ≡ t ∷ drop (suc e) privs)
    go less (ok x) g = (x, less, cc)
    go less (err x) g = cc
    go less panic g = cc

has_grant_on_col_bounds :
    (privs : List Text) (grant : Text) (s e : ℕ)
    → has_grant_on_col privs grant ≡ some (s, e)
    → (s ≤ e) × (e < length privs)
unfolding has_grant_on_col
has_grant_on_col_bounds privs grant s e h =
    ground (arith, grant_on_col_bounds (grant ++ codes " (") 0 none privs s e tt h)

-- A round that succeeds leaves the list as it is, or it replaces a grant on columns that was cut at
-- least once, with everything before it, by one element: what stands before the grant is lost.
pub normalize_grant-shape :
    (grant : Text) (privs ns : List Text)
    → normalize_grant grant privs ≡ ok ns
    → (ns ≡ privs)
      ⊎ ((s : ℕ) × (e : ℕ) × (t : Text) × (has_grant_on_col privs grant ≡ some (s, e))
          × (s < e)
          × (e < length privs)
          × (ns ≡ t ∷ drop (suc e) privs))
unfolding normalize_grant
normalize_grant-shape grant privs ns h = elim (Option-cases (has_grant_on_col privs grant)) [
  | inl absent ↦ inl (ground (arith, rw (normalize_grant, absent) at h))
  | inr ((s, e), found) ↦
      let (ordered, inside) = has_grant_on_col_bounds privs grant s e found in
      let (t, less, shape) = handle-shape privs ns s e ordered (rw (normalize_grant, found) at h) in
      inr (s, e, t, found, less, inside, shape)
]

grant_on_col-skip :
    (opening : Text) (n : ℕ) (before after : List Text)
    → All (λ priv. contains_text priv opening ≡ false) before
    → grant_on_col opening n none (before ++ after)
      ≡ grant_on_col opening (n + length before) none after
unfolding grant_on_col
grant_on_col-skip opening n [] after plain =
    ap (λ m. grant_on_col opening m none after) (omega arith)
grant_on_col-skip opening n (priv ∷ before) after (plain, rest) =
    rw (grant_on_col, plain, plain, grant_on_col-skip opening (suc n) before after rest)
      (ap (λ m. grant_on_col opening m none after) (omega arith))

-- A grant on columns that is one element of the list, as for a single column, always ends the round
-- in a panic.
pub normalize_grant-single :
    (grant priv : Text) (before after : List Text)
    → All (λ p. contains_text p (grant ++ codes " (") ≡ false) before
    → contains_text priv (grant ++ codes " (") ≡ true
    → contains_byte b')' priv ≡ true
    → normalize_grant grant (before ++ priv ∷ after) ≡ panic
unfolding normalize_grant has_grant_on_col handle_grant_on_col grant_on_col
normalize_grant-single grant priv before after plain opens closes =
    rw
      (
        normalize_grant,
        has_grant_on_col,
        grant_on_col-skip (grant ++ codes " (") 0 before (priv ∷ after) plain,
      )
      (ground (arith, opens, closes))
