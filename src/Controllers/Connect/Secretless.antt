-- ===== src/Controllers/Connect/Secretless.antt =====
-- A grantor without a secret.
use db_operator.Base.{List, [], ◌∷◌, Text, Option, none}
use db_operator.Base.Exec.{Exec, ◌>>=◌}
use db_operator.Interfaces.Files.{Files}
use db_operator.Api.{UserSpec}
use db_operator.Shared.Connections.{Credentials}
use db_operator.Postgres.Connector.{ConnectInfo, connection_string}
use db_operator.Controllers.Credentials.{SecretData}

abbrev nil_entry : Text → List (Text × Option Credentials)
nil_entry user_name = (user_name, none) ∷ []

module _ {W : Type 0} (files : Files W) (get_secret : Text → Text → Exec W SecretData)
    (get_user : Text → Text → Exec W UserSpec) where
  module _ {C : Type 0} (open_text : Text → Exec W C) (info : ConnectInfo) where
    -- `Connect`
    abbrev pub connect : Option Credentials → Option Text → Exec W C
    connect creds db_name = connection_string files info creds db_name >>= open_text
