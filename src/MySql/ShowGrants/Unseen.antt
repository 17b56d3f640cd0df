-- ===== src/MySql/ShowGrants/Unseen.antt =====
-- The grant option on a line of SHOW GRANTS.
use db_operator.Base.{
  length, drop, has_prefix, Bool-cases, sym, ℕ, Text, codes, contains_text, split, ok, err,
  bad_grant_line, [], ◌∷◌, map, Option, none, some, false, ◌≡◌, refl, arith, Option-cases, inl, inr,
  ◌>>=◌,
}
use db_operator.MySql.Columns.{normalize_col_grants}
use db_operator.MySql.ShowGrants.{match_user, longest_before, find_grant, priv_word, read_grant}

-- the third group is one quote
abbrev OneQuote : Text → Type 0
OneQuote q = (c : ℕ) × (q ≡ c ∷ [])

match_user-OneQuote : (s q : Text) → match_user s ≡ some q → OneQuote q
unfolding match_user
match_user-OneQuote [] q h = cc
match_user-OneQuote (c ∷ s) q h = (c, ground (arith, h))

longest_before-All :
    {A : Type 0} (P : A → Type 0) (rest : Text → Option A) (sep s x : Text) (a : A)
    → ((t : Text) (b : A) → rest t ≡ some b → P b)
    → longest_before rest sep s ≡ some (x, a)
    → P a
unfolding longest_before
longest_before-All P rest sep [] x a keeps h = cc
longest_before-All P rest sep (c ∷ s) x a keeps h =
    elim (Option-cases (longest_before rest sep s)) [
      | inr ((y, b), later) ↦
          let same : b ≡ a = cc (rw (longest_before, later) at h) in
          rw (sym same) (longest_before-All P rest sep s y b keeps later)
      | inl none_later ↦ elim (Bool-cases (has_prefix s sep)) [
        | inl here ↦ elim (Option-cases (rest (drop (length sep) s))) [
          | inr (b, found) ↦
              let same : b ≡ a = cc (rw (longest_before, none_later, here, found) at h) in
              rw (sym same) (keeps (drop (length sep) s) b found)
          | inl lost ↦ cc (rw (longest_before, none_later, here, lost) at h)
        ]
        | inr elsewhere ↦ cc (rw (longest_before, none_later, elsewhere) at h)
      ]
    ]

-- the quote of what is matched
abbrev Quoted : Text × (Text × Text) → Type 0
Quoted m = OneQuote m.1.1

abbrev grant_here : Text → Option (Text × (Text × Text))
grant_here = longest_before (longest_before match_user (codes " TO ")) (codes " ON ")

grant_here-Quoted : (s : Text) (m : Text × (Text × Text)) → grant_here s ≡ some m → Quoted m
grant_here-Quoted s (x, m) h =
    longest_before-All (λ n. OneQuote n.1) (longest_before match_user (codes " TO ")) (codes " ON ")
      s x m
      (λ t n e.
        longest_before-All OneQuote match_user (codes " TO ") t n.0 n.1 match_user-OneQuote e)
      h

find_grant-Quoted : (s : Text) (m : Text × (Text × Text)) → find_grant s ≡ some m → Quoted m
unfolding find_grant
find_grant-Quoted [] m h = cc
find_grant-Quoted (c ∷ s) m h = elim (Bool-cases (has_prefix (c ∷ s) (codes "GRANT "))) [
  | inl here ↦ elim (Option-cases (grant_here (drop 6 (c ∷ s)))) [
    | inr (m', found) ↦
        let same : m' ≡ m = cc (rw (find_grant, here, found) at h) in
        rw (sym same) (grant_here-Quoted (drop 6 (c ∷ s)) m' found)
    | inl lost ↦ find_grant-Quoted s m (rw (find_grant, here, lost) at h)
  ]
  | inr elsewhere ↦ find_grant-Quoted s m (rw (find_grant, elsewhere) at h)
]

too_short : (c : ℕ) → contains_text (c ∷ []) (codes "WITH GRANT OPTION") ≡ false
unfolding contains_text has_prefix
too_short c = ground arith

-- Whatever a line of SHOW GRANTS says behind its user, WITH GRANT OPTION included, GRANT is not added
-- to its privileges: a line that matches is read as its object with its normalised list, and every
-- other line is an error.
pub read_grant-no_option :
    (line : Text)
    → read_grant line ≡ (elim (find_grant line) [
      | none ↦ err bad_grant_line
      | some m ↦ normalize_col_grants (map priv_word (split m.0 b',')) >>= λ ps. ok (m.1.0, ps)
    ])
unfolding read_grant
read_grant-no_option line = elim (Option-cases (find_grant line)) [
  | inl lost ↦ rw (read_grant, lost) refl
  | inr (m, found) ↦
      let (c, single) = find_grant-Quoted line m found in
      rw (read_grant, found, single, too_short c) refl
]
