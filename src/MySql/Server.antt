-- ===== src/MySql/Server.antt =====
-- The server and the requirements of TLS, in dbservers/mysql/privileges.go.
pub mod Tls
use db_operator.Base.{
  trim_space, Text, codes, text_eq, has_prefix, contains_text, index, drop, take, length, split,
  to_lower, is_empty, keep, join, map, is_space, Result, ok, err, or_panic, bad_version, List, [],
  ◌∷◌, ◌++◌, Option, none, some, is_some, Bool, true, false, not, ◌&&◌, ◌||◌, ℕ, ◌+◌, ltb,
  if◌then◌else◌, ◌>>=◌, get_elem?, external,
}
use db_operator.Base.Maps.{store}
use db_operator.Interfaces.Sql.{Sql}
use db_operator.Interfaces.Versions.{Versions}
use db_operator.Interfaces.Funk.{Funk}
use db_operator.Postgres.Select.{
  scan_one, loaded, select_first_value_string, select_first_value_int,
  select_first_value_string_slice,
}
use db_operator.Postgres.Statements.{concat}

-- `query_utils.GetStringInBetween`
unfoldable pub get_string_in_between : Text → Text → Text → Text
get_string_in_between str start end = elim (index str start) [
  | none ↦ []
  | some s ↦
      let rest = drop (s + length start) str in
      elim (index rest end) [ none ↦ [] | some e ↦ take e rest ]
]

-- `strings.Fields`
unfoldable pub fields : Text → List Text
fields s = keep (λ word. not (is_empty word)) (split (map (λ c. if is_space c then 32 else c) s) 32)

pub record TlsRequires : Type 0 where
  pub requires_map : Option (List (Text × Text))
  pub requires_str : Option Text

unfoldable pub has_tls_requirements : TlsRequires → Bool
has_tls_requirements t = is_some t.requires_map && is_some t.requires_str

-- the REQUIRE of a query, and the parameters behind it
unfoldable pub mogrify : TlsRequires → Text → List Text → Text × List Text
mogrify t query params =
    if has_tls_requirements t
    then (elim t.requires_map [
      | some required ↦ (
        concat (
            query
            ∷ codes " REQUIRE "
            ∷ join (map (λ entry. entry.0 ++ codes " %s") required) (codes " AND ")
            ∷ []),
        params ++ map (λ entry. entry.1) required,
      )
      | none ↦ elim t.requires_str [
        | some words ↦ (concat (query ∷ codes " REQUIRE " ∷ words ∷ []), params)
        | none ↦ (query, params)
      ]
    ])
    else (query, params)

pub data ServerType : Type 0 where
  mysql : ServerType
  mariadb : ServerType

module _ ⦃versions : Versions⦄ where
  open versions use {Version, new_version, less_than}

  pub record ServerInfo : Type 0 where
    pub server_type : ServerType
    pub mode : Text
    pub quote : Text
    pub version : Version

  unfoldable pub new_server_info : Text → Text → Result ServerInfo
  new_server_info version_str mode = elim (new_version version_str) [
    | none ↦ err (bad_version version_str)
    | some version ↦ ok (record {
      server_type =
          if contains_text (to_lower version_str) (codes "mariadb") then mariadb else mysql;
      mode = mode;
      quote = if text_eq mode (codes "ANSI") then codes "\"" else codes "`";
      version = version;
    })
  ]

  -- a threshold that does not parse is nil, and the comparison with it panics
  abbrev older_than : ServerInfo → Text → Result Bool
  older_than si threshold = do
    version ← or_panic (new_version threshold)
    ok (less_than si.version version)

  abbrev old_threshold : ServerType → Text
  old_threshold mariadb = codes "10.2"
  old_threshold mysql = codes "5.7"

  unfoldable pub supports_identified_by_password : ServerInfo → Result Bool
  supports_identified_by_password si = elim si.server_type [
    | mariadb ↦ ok true
    | mysql ↦ older_than si (codes "8")
  ]

  unfoldable pub use_old_user_mgmt : ServerInfo → Result Bool
  use_old_user_mgmt si = older_than si (old_threshold si.server_type)

-- a user name between quotes, at a host between quotes
abbrev pub at_host : Text → Text → Text
at_host user host = concat (codes "'" ∷ user ∷ codes "'@'" ∷ host ∷ codes "'" ∷ [])

-- from the first line with REQUIRE
unfoldable pub tls_of_line : Text → Result TlsRequires
tls_of_line line = do
  let words = fields (get_string_in_between line (codes "REQUIRE") (codes "PASSWORD"))
  first ← or_panic (get_elem? words 0)
  if has_prefix first (codes "NONE")
      then ok (record { requires_map = none; requires_str = none })
      else if text_eq first (codes "SSL") || text_eq first (codes "X509")
      then ok (record { requires_map = none; requires_str = some first })
      else ok (record { requires_map = some (required words); requires_str = none })
  where
    required : List Text → List (Text × Text)
    required [] = []
    required (word ∷ words) = store word word (required words)

unfoldable pub tls_of_lines : List Text → Result TlsRequires
unfolding tls_of_line
tls_of_lines [] = ok (record { requires_map = none; requires_str = none })
tls_of_lines (line ∷ lines) = tls_of_line line
