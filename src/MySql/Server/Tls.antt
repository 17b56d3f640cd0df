-- ===== src/MySql/Server/Tls.antt =====
-- The requirements of TLS never reach a statement.
use db_operator.Base.{Text, ok, List, [], ◌∷◌, false, ◌≡◌, refl, arith}
use db_operator.MySql.Server.{TlsRequires, has_tls_requirements, mogrify, tls_of_line, tls_of_lines}

tls_of_line-none :
    (line : Text) (t : TlsRequires) → tls_of_line line ≡ ok t → has_tls_requirements t ≡ false
unfolding tls_of_line has_tls_requirements
tls_of_line-none line t h = ground arith

-- Whatever the server says of the user, also that it requires SSL or a certificate: `Mogrify` of the
-- requirements that `getTlsRequires` reads changes no query and no parameters.
pub mogrify-tls_of_lines :
    (lines : List Text) (t : TlsRequires) (query : Text) (params : List Text)
    → tls_of_lines lines ≡ ok t
    → mogrify t query params ≡ (query, params)
unfolding tls_of_lines mogrify has_tls_requirements
mogrify-tls_of_lines [] t query params h = ground arith
mogrify-tls_of_lines (line ∷ lines) t query params h = rw (mogrify, tls_of_line-none line t h) refl
