-- ===== src/MySql/Unpack.antt =====
-- `privilegesUnpack` of dbservers/mysql/privileges.go: the privileges that the specification asks for,
-- by object.
pub mod Objects
use db_operator.Base.{
  Text, codes, text_eq, split, split_two, join, trim_byte, trim_space, to_upper, is_empty, Result,
  ok, err, panic, invalid_privs, List, [], ◌∷◌, ◌++◌, map, Bool, true, false, not, ◌||◌,
  if◌then◌else◌, ◌>>=◌, Option, none, some,
}
use db_operator.Base.Maps.{lookup, store}
use db_operator.Interfaces.Funk.{Funk}
use db_operator.Api.{DbPriv}
use db_operator.MySql.Words.{valid_privs}
use db_operator.MySql.Columns.{parse_priv_piece, normalize_col_grants}

-- a Go `map[string][]string`
abbrev pub PrivMap : Type 0
PrivMap = List (Text × List Text)

abbrev pub all_objects : Text
all_objects = codes "*.*"

abbrev pub mode_quote : Text → Text
mode_quote mode = if text_eq mode (codes "ANSI") then codes "\"" else codes "`"

-- neither `*.` nor `.*` is quoted
unfoldable pub quote_side : Text → Text → Text
quote_side quote side =
    if text_eq (trim_byte b'`' side) (codes "*") then side else quote ++ (trim_space side ++ quote)

-- the object type FUNCTION or PROCEDURE with a blank, and the sides of the object
unfoldable pub scope_sides : DbPriv → Text × List Text
scope_sides item =
    let sides = split item.scope b'.' in
    let plain : Text × List Text = ([], sides) in
    elim (split_two item.privs b' ') [
      | object_type ∷ (name ∷ _) ↦
          if text_eq object_type (codes "FUNCTION") || text_eq object_type (codes "PROCEDURE")
          then (object_type ++ codes " ", elim sides [ [] ↦ [] | _ ∷ rest ↦ name ∷ rest ])
          else plain
      | _ ↦ plain
    ]

unfoldable pub quoted_scope : Text → DbPriv → Text
unfolding scope_sides quote_side
quoted_scope quote item =
    (scope_sides item).0 ++ join (map (quote_side quote) (scope_sides item).1) (codes ".")

abbrev pub add_usage : Option (List Text) → PrivMap → PrivMap
add_usage (some _) output = output
add_usage none output = store all_objects (codes "USAGE" ∷ []) output

module _ ⦃funk : Funk⦄ where
  -- one round: the object and its privileges
  unfoldable pub unpack_item : Text → DbPriv → Result (Text × List Text)
  unpack_item quote item = do
    let (privs, stripped) = parse_priv_piece (to_upper item.privs)
    let invalid = funk.subtract stripped valid_privs
    let scope = quoted_scope quote item
    if is_empty invalid
        then (do normalized ← normalize_col_grants privs; ok (scope, normalized))
        else err (invalid_privs scope invalid)

  unfoldable pub unpack_items : Text → List DbPriv → PrivMap → Result PrivMap
  unfolding unpack_item
  unpack_items quote [] output = ok output
  unpack_items quote (item ∷ items) output = do
    (scope, privs) ← unpack_item quote item
    unpack_items quote items (store scope privs output)

  -- an object that is missing from `*.*` gets USAGE
  abbrev pub with_usage : PrivMap → PrivMap
  with_usage output = add_usage (lookup all_objects output) output

  unfoldable pub privileges_unpack : List DbPriv → Text → Result PrivMap
  unfolding unpack_items
  privileges_unpack db_privs mode = do
    output ← unpack_items (mode_quote mode) db_privs []
    ok (with_usage output)
