-- ===== src/Api.antt =====
-- api/v1alpha1: the specifications of the custom resources, as far as the other modules read them.
use db_operator.Base.{Text, List, Option, Bool}

pub record DbPriv : Type 0 where
  pub scope : Text
  pub privs : Text
  pub default_privs : Text
  pub priv_type : Text
  pub grantor : Option Text

pub record DropUserOptions : Type 0 where
  pub revoke_privileges : Bool
  pub drop_owned : Bool
  pub reassing_owned_to : Text

pub record UserSpec : Type 0 where
  pub user_name : Text
  pub secret_name : Text
  pub generate_secret : Bool
  pub password_key : Text
  pub ca_cert_key : Text
  pub tls_crt_key : Text
  pub tls_key_key : Text
  pub db_server_name : Text
  pub db_privs : List DbPriv
  pub server_privs : Text
  pub drop_on_deletion : Bool
  pub drop_user_options : Option DropUserOptions
