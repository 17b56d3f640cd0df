-- ===== src/Postgres/Privileges/Normalize.antt =====
-- What `NormalizePrivileges` returns.
use db_operator.Base.{
  Text, text_eq, text_eq_iff, member, member-append, ok, List, [], ◌∷◌, ◌++◌, Bool, not, ◌&&◌, ◌||◌,
  ◌≡◌, refl, arith, Bool-cases, inl, inr,
}
use db_operator.Interfaces.Funk.{Funk}
use db_operator.Postgres.Version.{PostgresVersion, get_valid_privs, all_word}
use db_operator.Postgres.Privileges.{
  remove, expand_all, expand_temp, normalize_privileges, temp_word, temporary_word,
}

pub member-remove :
    (xs : List Text) (item a : Text)
    → member a (remove xs item) ≡ (member a xs && not (text_eq a item))
unfolding member remove
member-remove [] item a = refl
member-remove (x ∷ xs) item a =
    ground (arith, member-remove xs item a, text_eq_iff x a, text_eq_iff x item, text_eq_iff a item)

module _ ⦃funk : Funk⦄ where
  -- what the list holds once ALL is replaced
  abbrev pub with_all : List Text → List Text → Text → Bool
  with_all privs valid a =
      not (text_eq a all_word) && (member a privs || (member all_word privs && member a valid))

  member-expand_all :
      (privs valid : List Text) (priv_type : Text) (v : PostgresVersion)
      → get_valid_privs v priv_type ≡ ok valid
      → (xs : List Text) × (expand_all privs priv_type v ≡ ok xs)
        × ((a : Text) → member a xs ≡ with_all privs valid a)
  unfolding expand_all
  member-expand_all privs valid priv_type v e = elim (Bool-cases (member all_word privs)) [
    | inl has ↦ (
      remove (privs ++ valid) all_word,
      rw (funk.contains_lem privs all_word, has, e),
      λ a. ground (arith, member-remove (privs ++ valid) all_word a, member-append a privs valid),
    )
    | inr lacks ↦ (
      privs,
      rw (funk.contains_lem privs all_word, lacks),
      λ a. ground (arith, text_eq_iff a all_word),
    )
  ]

  -- what the list holds once TEMP is replaced as well
  abbrev pub normal_set : List Text → List Text → Text → Bool
  normal_set privs valid a =
      not (text_eq a temp_word)
      && (with_all privs valid a || (text_eq a temporary_word && with_all privs valid temp_word))

  member-expand_temp :
      (xs : List Text) (a : Text)
      → member a (expand_temp xs) ≡ (
          not (text_eq a temp_word)
          && (member a xs || (text_eq a temporary_word && member temp_word xs)))
  unfolding expand_temp member
  member-expand_temp xs a = elim (Bool-cases (member temp_word xs)) [
    | inl has ↦
        rw (funk.contains_lem xs temp_word, has)
          (ground (
            arith,
            member-remove (xs ++ temporary_word ∷ []) temp_word a,
            member-append a xs (temporary_word ∷ []),
            text_eq_iff temporary_word a,
            text_eq_iff a temporary_word,
          ))
    | inr lacks ↦
        rw (funk.contains_lem xs temp_word, lacks) (ground (arith, text_eq_iff a temp_word))
  ]

  -- For a server and a type of privilege with known valid privileges, the normalisation succeeds.
  -- The result holds neither ALL nor TEMP. It holds the other privileges of the input, if the input
  -- has ALL also the valid ones, and TEMPORARY if TEMP is among these; and it holds nothing else.
  pub member-normalize_privileges :
      (privs valid : List Text) (priv_type : Text) (v : PostgresVersion)
      → get_valid_privs v priv_type ≡ ok valid
      → (ns : List Text) × (normalize_privileges privs priv_type v ≡ ok ns)
        × ((a : Text) → member a ns ≡ normal_set privs valid a)
  unfolding normalize_privileges
  member-normalize_privileges privs valid priv_type v e =
      let (xs, expanded, holds) = member-expand_all privs valid priv_type v e in
      (
        funk.uniq (expand_temp xs),
        rw expanded,
        λ a. ground (
          arith,
          funk.member-uniq (expand_temp xs) a,
          member-expand_temp xs a,
          holds a,
          holds temp_word,
        ),
      )
