-- ===== src/Postgres/Constructors/Valid.antt =====
-- The privileges that reach a GRANT or a REVOKE.
use db_operator.Base.{Text, codes, trim_prefix, to_lower}
use db_operator.Interfaces.Funk.{Funk}
use db_operator.Interfaces.Pq.{Pq}
use db_operator.Interfaces.Sql.{Sql}

abbrev pub strip_type : Text → Text
strip_type priv_type = to_lower (trim_prefix priv_type (codes "default"))
