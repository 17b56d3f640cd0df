-- ===== src/MySql/Tests/Texts.antt =====
-- Texts: lists of privileges, grants on columns, lines of SHOW GRANTS and of SHOW CREATE USER.
use db_operator.Base.{
  ◌>>=◌, bad_grant_line, text_lt, sort_texts, trim_space, trim_byte, trim_left, trim_right, index,
  split, contains_byte, contains_text, keep, Text, codes, text_eq, has_prefix, ok, err, panic, List,
  [], ◌∷◌, ◌++◌, map, none, some, true, false, ◌≡◌, refl, join,
}
use db_operator.Base.Maps.{lookup, store}
use db_operator.Interfaces.Funk.{reference_funk}
use db_operator.MySql.Columns.{
  sort_column_order, handle_grant_on_col, grant_on_col, normalize_grant, has_grant_on_col,
  parse_priv_piece,
}
use db_operator.MySql.Columns.Pieces.{Joins, parse_priv_piece-Joins}
use db_operator.MySql.Columns.Lost.{normalize_grant-single}
use db_operator.MySql.Server.{fields, get_string_in_between, tls_of_line, TlsRequires, tls_of_lines}
use db_operator.MySql.Unpack.{all_objects, privileges_unpack}
use db_operator.MySql.Tests.{select}
use db_operator.MySql.ShowGrants.{match_user, longest_before, find_grant, priv_word, read_grant}
use db_operator.MySql.ShowGrants.Unseen.{read_grant-no_option}
use db_operator.MySql.Columns.{normalize_col_grants}

parse_priv_piece-Joins_example :
    Joins (codes "SELECT(a,b),UPDATE") (parse_priv_piece (codes "SELECT(a,b),UPDATE")).0
parse_priv_piece-Joins_example = parse_priv_piece-Joins (codes "SELECT(a,b),UPDATE")

abbrev column_grant : List Text
column_grant = codes "INSERT" ∷ codes "SELECT (b" ∷ codes "a)" ∷ codes "UPDATE" ∷ []

abbrev normal_grant : List Text
normal_grant = codes "SELECT (a, b)" ∷ codes "UPDATE" ∷ []

column_grant-normal : normalize_grant select column_grant ≡ ok normal_grant
unfolding normalize_grant has_grant_on_col grant_on_col handle_grant_on_col sort_column_order
    contains_text contains_byte has_prefix join split trim_right trim_left trim_byte trim_space
    sort_texts text_lt
column_grant-normal = refl

opens : contains_text (codes "SELECT (a)") (select ++ codes " (") ≡ true
unfolding contains_text has_prefix
opens = refl

closes : contains_byte b')' (codes "SELECT (a)") ≡ true
unfolding contains_byte
closes = refl

plain_insert : contains_text (codes "INSERT") (select ++ codes " (") ≡ false
unfolding contains_text has_prefix
plain_insert = refl

normalize_grant-single_example :
    normalize_grant select ((codes "INSERT" ∷ []) ++ codes "SELECT (a)" ∷ []) ≡ panic
normalize_grant-single_example =
    normalize_grant-single select (codes "SELECT (a)") (codes "INSERT" ∷ []) [] (plain_insert, tt)
      opens closes

abbrev tls_line : Text
tls_line = codes "CREATE USER u REQUIRE SSL PASSWORD EXPIRE"

abbrev ssl : TlsRequires
ssl = record { requires_map = none; requires_str = some (codes "SSL") }

tls_line-ssl : tls_of_lines (tls_line ∷ []) ≡ ok ssl
unfolding tls_of_lines tls_of_line get_string_in_between fields index has_prefix split keep text_eq
tls_line-ssl = refl

unpack_nothing :
    privileges_unpack ⦃funk = reference_funk⦄ [] (codes "ANSI")
    ≡ ok ((all_objects, codes "USAGE" ∷ []) ∷ [])
unfolding privileges_unpack lookup store
unpack_nothing = refl

abbrev grant_line : Text
grant_line = codes "GRANT SELECT ON *.* TO `clerk`@`%` WITH GRANT OPTION"

read_grant-no_option_example : read_grant grant_line ≡ (elim (find_grant grant_line) [
  | none ↦ err bad_grant_line
  | some m ↦ normalize_col_grants (map priv_word (split m.0 b',')) >>= λ ps. ok (m.1.0, ps)
])
read_grant-no_option_example = read_grant-no_option grant_line

-- the run on that line
grant_line-read : read_grant grant_line ≡ ok (codes "*.*", select ∷ [])
unfolding read_grant find_grant longest_before match_user has_prefix contains_text split text_eq
    trim_space trim_right trim_left normalize_col_grants normalize_grant has_grant_on_col
    grant_on_col
grant_line-read = refl
