-- ===== src/MySql/Queries.antt =====
-- The queries of dbservers/mysql/privileges.go on the server, and `CreateUser`.
use db_operator.Base.{
  or_panic, contains_text, no_credentials, keep, ltb, none, is_empty, ◌++◌, ◌∷◌, [], Option,
  if◌then◌else◌, Bool, codes, Text,
}
use db_operator.Base.Exec.{Exec, pure, raise, lift, wrapping, ◌>>=◌}
use db_operator.Interfaces.Sql.{Sql}
use db_operator.Interfaces.Versions.{Versions}
use db_operator.Postgres.Select.{
  scan_one, loaded, select_first_value_string, select_first_value_int,
  select_first_value_string_slice,
}
use db_operator.MySql.Server.{
  ServerInfo, TlsRequires, new_server_info, use_old_user_mgmt, tls_of_lines, at_host, mogrify,
}

module _ ⦃db : Sql⦄ where
  open db use {Conn, World, query, scan_string}

  unfoldable pub get_mode : Conn → Exec World Text
  get_mode conn = do
    rows ← wrapping (query conn (codes "SELECT @@GLOBAL.sql_mode;") [])
    mode_str ←
        wrapping
          (lift (elim rows [ [] ↦ loaded none | row ∷ _ ↦ loaded (scan_one scan_string row) ]))
    pure (if contains_text mode_str (codes "ANSI") then codes "ANSI" else codes "NOTANSI")

  unfoldable pub user_exists : Conn → Text → Text → Bool → Exec World Bool
  user_exists conn user host host_all = do
    count ← wrapping (
        if host_all
        then select_first_value_int conn (codes "SELECT count(*) FROM mysql.user WHERE user = ?")
            (user ∷ [])
        else select_first_value_int conn
            (codes "SELECT count(*) FROM mysql.user WHERE user = ? AND host = ?")
            (user ∷ host ∷ []))
    pure (ltb 0 count)

module _ ⦃versions : Versions⦄ ⦃db : Sql⦄ where
  open db use {Conn, World}

  unfoldable pub get_server_info : Conn → Exec World ServerInfo
  get_server_info conn = do
    version_str ← wrapping (select_first_value_string conn (codes "SELECT VERSION();") [])
    mode ← wrapping (get_mode conn)
    lift (new_server_info version_str mode)

  unfoldable pub get_tls_requires : Conn → ServerInfo → Text → Text → Exec World TlsRequires
  get_tls_requires conn si user host = do
    old ← lift (use_old_user_mgmt si)
    let query =
        if old
        then codes "SHOW GRANTS for " ++ at_host user host
        else codes "SHOW CREATE USER " ++ at_host user host
    grants ← wrapping (select_first_value_string_slice conn query [])
    lift (tls_of_lines (keep (λ s. contains_text s (codes "REQUIRE")) grants))

  -- with the requirements of TLS that may be nil, which the old user management dereferences
  unfoldable pub create_user_si :
      Conn → Text → Text → Text → ServerInfo → Option TlsRequires → Exec World (Unit {0})
  create_user_si conn user host password si tls_requires = do
    old ← lift (use_old_user_mgmt si)
    if is_empty password
        then raise (no_credentials user)
        else if old
        then (do
          tls ← lift (or_panic tls_requires)
          let (statement, params) =
              mogrify tls (codes "CREATE USER ?@? IDENTIFIED BY ?;") (user ∷ host ∷ password ∷ [])
          db.exec conn statement params)
        else (do
          hashed ← wrapping (
              select_first_value_string conn
                (codes "SELECT CONCAT('*', UCASE(SHA1(UNHEX(SHA1(?)))))") (password ∷ []))
          db.exec conn (codes "CREATE USER ?@? IDENTIFIED WITH mysql_native_password AS ?;")
              (user ∷ host ∷ hashed ∷ []))

  unfoldable pub create_user :
      Conn → Text → Text → Text → Option TlsRequires → Exec World (Unit {0})
  create_user conn user host password tls_requires = do
    si ← wrapping (get_server_info conn)
    create_user_si conn user host password si tls_requires
