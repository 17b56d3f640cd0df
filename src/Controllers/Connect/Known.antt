-- ===== src/Controllers/Connect/Known.antt =====
-- Whose credentials a connection knows.
use db_operator.Base.{
  Text, text_eq, ok, List, [], ◌∷◌, Option, is_some, ◌||◌, ◌≡◌, ap, sym, member, arith,
}
use db_operator.Base.Exec.{Exec, bind-ok}
use db_operator.Base.Maps.{lookup, store, lookup-store}
use db_operator.Api.{UserSpec}
use db_operator.Shared.Connections.{Credentials}
use db_operator.Controllers.Credentials.{SecretData}
use db_operator.Controllers.Connect.{get_credentials_for_user, credentials_of_users}

is_some-store :
    {A : Type 0} (name k : Text) (a : A) (m : List (Text × A))
    → is_some (lookup name (store k a m)) ≡ (text_eq k name || is_some (lookup name m))
is_some-store name k a m = ground (arith, lookup-store k name a m)

module _ {W : Type 0} (get_secret : Text → Text → Exec W SecretData)
    (get_user : Text → Text → Exec W UserSpec) where
  -- When the credentials of all grantors could be read: exactly these users, and those known before,
  -- have an entry, whether or not it holds credentials.
  pub credentials_of_users-known :
      (namespace name : Text) (found : List (Text × Option Credentials)) (names : List Text)
      (result : List (Text × Option Credentials)) (w w' : W)
      → credentials_of_users get_secret get_user namespace found names w ≡ (ok result, w')
      → is_some (lookup name result) ≡ (member name names || is_some (lookup name found))
  unfolding credentials_of_users member
  credentials_of_users-known namespace name found [] result w w' h =
      let same : found ≡ result = cc (ap (λ r. r.0) h) in
      ap (λ m. is_some (lookup name m)) (sym same)
  credentials_of_users-known namespace name found (user ∷ names) result w w' h =
      let (creds, w₁, read, rest) =
        bind-ok (get_credentials_for_user get_secret get_user namespace user)
          (λ creds.
            credentials_of_users get_secret get_user namespace (store user creds found) names)
          w w' result h in
      let later =
        credentials_of_users-known namespace name (store user creds found) names result w₁ w'
          rest in
      ground (arith, later, is_some-store name user creds found)
