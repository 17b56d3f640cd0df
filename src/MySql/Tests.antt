-- ===== src/MySql/Tests.antt =====
-- A server with one privilege on all objects, and runs on it.
mod Guards
mod Texts
use db_operator.Base.{
  text_lt, sort_texts, trim_space, trim_byte, trim_left, trim_right, index, split, contains_byte,
  contains_text, keep, ap, Text, codes, text_eq, text_eq_iff, has_prefix, member, SameSet, Result,
  ok, err, panic, List, [], ◌∷◌, ◌++◌, map, Option, none, some, Bool, true, false, not, ◌&&◌, ◌||◌,
  ◌≡◌, ◌≢◌, ◌⊎◌, ◌↔◌, inl, inr, refl, arith, is_some, All, length, drop, join, ◌≤◌, ◌<◌, suc, ℕ,
  if◌then◌else◌, Error, external, quoted_name,
}
use db_operator.Base.Maps.{lookup, Listed, store}
use db_operator.Interfaces.Funk.{reference_funk}
use db_operator.Interfaces.Sql.{Sql}
use db_operator.Api.{DbPriv}
use db_operator.MySql.Columns.{
  sort_column_order, handle_grant_on_col, grant_on_col, rsplit, normalize_grant, has_grant_on_col,
  parse_priv_piece,
}
use db_operator.MySql.Columns.Pieces.{Joins, rsplit-join, parse_priv_piece-Joins}
use db_operator.MySql.Columns.Lost.{normalize_grant-shape, normalize_grant-single}
use db_operator.MySql.Server.{
  fields, get_string_in_between, tls_of_line, TlsRequires, mogrify, tls_of_lines,
}
use db_operator.MySql.Server.Tls.{mogrify-tls_of_lines}
use db_operator.MySql.Unpack.{PrivMap, all_objects, privileges_unpack}
use db_operator.MySql.Unpack.Objects.{privileges_unpack-Listed}
use db_operator.MySql.Users.{wanted, update_privileges}
use db_operator.MySql.Statements.{
  grant_statement, revoke_statement, check_names, is_quoted, privileges_revoke, privileges_grant,
}
use db_operator.MySql.Users.Convergence.{update_privileges-converges}
use db_operator.MySql.Users.Loops.{after_revocation, after_grant, Serves, Plain}
use db_operator.MySql.Users.Guards.{
  check_names_ok, guarded_statements, update_privileges-lost_error,
}

abbrev pub select : Text
select = codes "SELECT"

-- the state: whether the user has SELECT on all objects
abbrev one_db : Sql
one_db = record {
  Conn = Unit {0};
  World = Bool;
  Value = Text;
  query = λ c q args w. (ok [], w);
  exec = λ c q args w. (ok tt, not (has_prefix q (codes "REVOKE")));
  scan_string = λ v. some (some v);
  scan_int = λ v. none;
  scan_bool = λ v. none;
  scan_array = λ v. none;
  as_bool = λ v. none;
  query_table = λ c q args w. (ok [], w);
}

abbrev held_on : Bool → Text → List Text
held_on w t = if w && text_eq t all_objects then select ∷ [] else []

abbrev IsSelect : Text → Type 0
IsSelect a = a ≡ select

abbrev IsAll : Text → Type 0
IsAll t = t ≡ all_objects

abbrev Always : Bool → Type 0
Always w = Unit {0}

head-select :
    (p : Text) (ps : List Text) → ((a : Text) → member a (p ∷ ps) ≡ true → IsSelect a) → p ≡ select
unfolding member
head-select p ps wordy = wordy p (ground (arith, text_eq_iff p p))

select_only :
    (p : Text) (ps : List Text) (a : Text)
    → ((b : Text) → member b (p ∷ ps) ≡ true → IsSelect b)
    → member a (p ∷ ps) ≡ text_eq a select
unfolding member
select_only p ps a wordy =
    ground (arith, wordy a, head-select p ps wordy, text_eq_iff a select, text_eq_iff p a)

abbrev pub host : Text
host = codes "%"

abbrev pub clerk : Text
clerk = codes "clerk"

revoked :
    (p : Text) (ps : List Text) (w : Bool)
    → privileges_revoke ⦃funk = reference_funk⦄ ⦃db = one_db⦄ tt clerk host all_objects
        (p ∷ ps)
        false
        w
      ≡ (ok tt, false)
unfolding privileges_revoke check_names is_quoted text_eq revoke_statement has_prefix
revoked p ps w = refl

granted :
    (p : Text) (ps : List Text) (w : Bool)
    → privileges_grant ⦃funk = reference_funk⦄ ⦃db = one_db⦄ tt clerk host all_objects (p ∷ ps) w
      ≡ (ok tt, true)
unfolding privileges_grant check_names is_quoted text_eq grant_statement has_prefix
granted p ps w = refl

left_by_revoke :
    (p : Text) (ps : List Text) (w : Bool)
    → after_revocation ⦃funk = reference_funk⦄ ⦃db = one_db⦄ tt clerk host all_objects (p ∷ ps) w
      ≡ false
left_by_revoke p ps w = ap (λ x. x.1) (revoked p ps w)

left_by_grant :
    (p : Text) (ps : List Text) (w : Bool)
    → after_grant ⦃funk = reference_funk⦄ ⦃db = one_db⦄ tt clerk host all_objects (p ∷ ps) w ≡ true
left_by_grant p ps w = ap (λ x. x.1) (granted p ps w)

held_on-select :
    (w : Bool) (t a : Text)
    → member a (held_on w t) ≡ (w && (text_eq t all_objects && text_eq a select))
unfolding member
held_on-select w t a = ground (arith, text_eq_iff a select, text_eq_iff select a)

one_db-Serves :
    Serves ⦃funk = reference_funk⦄ ⦃db = one_db⦄ tt clerk host IsSelect IsAll Always held_on
one_db-Serves = record {
  revoke_ok = λ t p ps w up known wordy. rw (known, revoked p ps w) (refl, tt);
  revoke_privs = λ t p ps w t' a up known wordy.
      rw (known, left_by_revoke p ps w)
        (ground (
          arith,
          held_on-select w t' a,
          held_on-select false t' a,
          select_only p ps a wordy,
          text_eq_iff all_objects t',
          text_eq_iff t' all_objects,
        ));
  grant_ok = λ t p ps w up known wordy. rw (known, granted p ps w) (refl, tt);
  grant_privs = λ t p ps w t' a up known wordy.
      rw (known, left_by_grant p ps w)
        (ground (
          arith,
          held_on-select w t' a,
          held_on-select true t' a,
          select_only p ps a wordy,
          text_eq_iff all_objects t',
          text_eq_iff t' all_objects,
        ));
}

abbrev select_map : PrivMap
select_map = (all_objects, select ∷ []) ∷ []

only_select : (a : Text) → member a (select ∷ []) ≡ true → IsSelect a
unfolding member
only_select a m = ground (arith, text_eq_iff a select, text_eq_iff select a, m)

no_grant : member (codes "GRANT") (select ∷ []) ≡ false
unfolding member text_eq
no_grant = refl

select_map-Listed : All (Listed select_map) select_map
unfolding lookup text_eq
select_map-Listed = (refl, tt)

held_now : (t a : Text) → member a (held_on true t) ≡ member a (wanted select_map t)
unfolding lookup member
held_now t a = ground (arith, text_eq_iff all_objects t, text_eq_iff t all_objects)

select_map-Plain : All (Plain IsSelect IsAll) select_map
select_map-Plain = ((refl, λ a m. only_select a m, omega arith, no_grant), tt)

-- all that the user holds is taken away
update_privileges-converges_example :
    ((update_privileges ⦃funk = reference_funk⦄ ⦃db = one_db⦄ tt clerk host select_map [] true).1
      ≡ ok tt)
    × Always
        (update_privileges ⦃funk = reference_funk⦄ ⦃db = one_db⦄ tt clerk host select_map [] true).2
    × ((t : Text)
        → SameSet
            (held_on
              (update_privileges ⦃funk = reference_funk⦄ ⦃db = one_db⦄ tt clerk host select_map []
                true).2
              t)
            (wanted [] t))
update_privileges-converges_example =
    update_privileges-converges ⦃funk = reference_funk⦄ ⦃db = one_db⦄ tt clerk host IsSelect IsAll
      Always held_on one_db-Serves select_map [] true tt select_map-Plain tt select_map-Listed tt
      held_now
