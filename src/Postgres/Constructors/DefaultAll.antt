-- ===== src/Postgres/Constructors/DefaultAll.antt =====
-- ALL as a default privilege: `NormalizePrivileges` is called with the type `defaultTable`, which
-- `GetValidPrivs` does not know.
use db_operator.Base.{
  to_lower, trim_prefix, Option, contains_byte, length, ◌≤◌, ◌∙◌, Text, codes, text_eq, text_eq_iff,
  member, no_member, ok, List, [], ◌∷◌, true, false, ◌≡◌, arith,
}
use db_operator.Postgres.Version.Known.{get_valid_privs_total}
use db_operator.Interfaces.Funk.{Funk}
use db_operator.Api.{DbPriv}
use db_operator.Postgres.Version.{parse_version_string, PostgresVersion, get_valid_privs, all_word}
use db_operator.Postgres.Privileges.{temp_word, to_priv_set, normalize_privileges}
use db_operator.Postgres.Privileges.Normalize.{member-normalize_privileges, normal_set}
use db_operator.Postgres.Constructors.{
  validate_and_normalize, normalize_typed, normalize_db_priv, checked_priv_set, or_empty,
}

abbrev pub default_table : Text
default_table = codes "defaultTable"

abbrev pub default_entry : Text → Text → Option Text → DbPriv
default_entry scope privs grantor = record {
  scope = scope;
  privs = privs;
  default_privs = [];
  priv_type = default_table;
  grantor = grantor;
}

no_default_table_privs :
    (v : PostgresVersion) (own : List Text) → get_valid_privs v default_table ≡ ok own → own ≡ []
unfolding get_valid_privs text_eq
no_default_table_privs v own e = ground arith

module _ ⦃funk : Funk⦄ where
  only_all : (a : Text) → normal_set (all_word ∷ []) [] a ≡ false
  unfolding member
  only_all a = ground (
    arith,
    text_eq_iff all_word a,
    text_eq_iff a all_word,
    text_eq_iff all_word temp_word,
    text_eq_iff temp_word all_word,
  )

  normalize-default_table :
      (v : PostgresVersion) (own : List Text)
      → get_valid_privs v default_table ≡ ok own
      → normalize_privileges (all_word ∷ []) default_table v ≡ ok []
  normalize-default_table v own e =
      let none_left = no_default_table_privs v own e in
      let (ns, n, holds) =
        member-normalize_privileges (all_word ∷ []) [] default_table v (rw none_left at e) in
      let empty : ns ≡ [] = no_member ns (λ a. holds a ∙ only_all a) in cc (n, empty)

  table_privs_hold_all :
      (v : PostgresVersion) (valid : List Text)
      → get_valid_privs v (codes "table") ≡ ok valid
      → (1 ≤ length valid) × (member all_word valid ≡ true)
  unfolding get_valid_privs text_eq member
  table_privs_hold_all v valid e = ground arith

  all_is_valid :
      (v : PostgresVersion) (valid : List Text)
      → get_valid_privs v (codes "table") ≡ ok valid
      → funk.subset (all_word ∷ []) valid ≡ true
  unfolding member
  all_is_valid v valid e =
      let (some_privs, has_all) = table_privs_hold_all v valid e in
      funk.subset_complete (all_word ∷ []) valid some_privs
        (λ a m. ground (arith, text_eq_iff all_word a))

  -- A `defaultTable` entry with the one word ALL is accepted for every parsed version, whatever its
  -- scope and grantor, and is normalised to no privilege at all.
  pub checked_priv_set-default_all :
      (s : Text) (v : PostgresVersion) (scope privs db_name : Text) (grantor : Option Text)
      → parse_version_string s ≡ ok v
      → contains_byte b'/' privs ≡ false
      → to_priv_set privs ≡ all_word ∷ []
      → checked_priv_set (default_entry scope privs grantor) db_name v
        ≡ ok (default_table, or_empty grantor, [])
  unfolding checked_priv_set normalize_db_priv normalize_typed validate_and_normalize text_eq
      trim_prefix to_lower
  checked_priv_set-default_all s v scope privs db_name grantor parsed no_slash all_only =
      let (valid, f) = get_valid_privs_total s (codes "table") v parsed in
      let (own, e) = get_valid_privs_total s default_table v parsed in
      let accepted = all_is_valid v valid f in
      ground (arith, f, accepted, normalize-default_table v own e)
