-- ===== src/MySql/Statements.antt =====
-- `privilegesGrant` and `privilegesRevoke` of dbservers/mysql/privileges.go.
use db_operator.Base.{
  Text, codes, text_eq, join, replace_byte, Result, ok, err, panic, quoted_name, unquoted_table,
  List, [], ◌∷◌, ◌++◌, Bool, true, not, ◌||◌, ◌==◌, if◌then◌else◌, ◌>>=◌,
}
use db_operator.Base.Exec.{Exec, pure, lift}
use db_operator.Base.Exec.{◌>>=◌ as and_then}
use db_operator.Interfaces.Funk.{Funk}
use db_operator.Interfaces.Sql.{Sql}
use db_operator.Postgres.Statements.{concat}
use db_operator.MySql.Unpack.{all_objects}
use db_operator.MySql.Server.{at_host}

-- `input[0]` of an empty name panics
unfoldable pub is_quoted : Text → Result Bool
is_quoted [] = panic
is_quoted (c ∷ _) = ok (c == b'"' || c == b'`')

abbrev either_quoted : Text → Text → Result Bool
either_quoted host user = do
  host_quoted ← is_quoted host
  if host_quoted then ok true else is_quoted user

-- the guards of `privilegesRevoke` and `privilegesGrant`
unfoldable pub check_names : Text → Text → Text → Result (Unit {0})
unfolding is_quoted
check_names user host db_table = do
  quoted ← either_quoted host user
  if quoted
      then err quoted_name
      else if text_eq db_table all_objects
      then ok tt
      else do table_quoted ← is_quoted db_table; if table_quoted then ok tt else err unquoted_table

-- the doubling of the percent signs of the object
abbrev pub escape_percent : Text → Text
escape_percent db_table = replace_byte b'%' (codes "%%") db_table

module _ ⦃funk : Funk⦄ ⦃db : Sql⦄ where
  open db use {Conn, World, exec}

  abbrev pub non_grant : List Text → List Text
  non_grant priv = funk.filter_string (λ s. not (text_eq s (codes "GRANT"))) priv

  unfoldable pub revoke_statement : Text → Text → Text → List Text → Text
  revoke_statement user host db_table priv = concat (
      codes "REVOKE "
      ∷ join (non_grant priv) (codes ",")
      ∷ codes " ON "
      ∷ escape_percent db_table
      ∷ codes " FROM "
      ∷ at_host user host
      ∷ codes ";"
      ∷ [])

  unfoldable pub privileges_revoke :
      Conn → Text → Text → Text → List Text → Bool → Exec World (Unit {0})
  privileges_revoke conn user host db_table priv grant_option =
      and_then (lift (check_names user host db_table)) λ _.
        and_then
          (if grant_option
            then exec conn
                (concat
                  (codes "REVOKE GRANT OPTION ON ? FROM " ∷ at_host user host ∷ codes ";" ∷ []))
                (escape_percent db_table ∷ [])
            else pure tt)
          λ _. exec conn (revoke_statement user host db_table priv) []

  -- what `Mogrify` makes of the statement is dropped in the source
  unfoldable pub grant_statement : Text → Text → Text → List Text → Text
  grant_statement user host db_table priv =
      concat (
        codes "GRANT "
        ∷ join (non_grant priv) (codes ",")
        ∷ codes " ON "
        ∷ escape_percent db_table
        ∷ codes " TO "
        ∷ at_host user host
        ∷ codes ";"
        ∷ [])
      ++ (if funk.contains priv (codes "GRANT") then codes " WITH GRANT OPTION" else [])

  unfoldable pub privileges_grant : Conn → Text → Text → Text → List Text → Exec World (Unit {0})
  privileges_grant conn user host db_table priv =
      and_then (lift (check_names user host db_table))
        λ _. exec conn (grant_statement user host db_table priv) []
