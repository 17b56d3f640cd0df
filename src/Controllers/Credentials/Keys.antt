-- ===== src/Controllers/Credentials/Keys.antt =====
-- Which entries of a secret become credentials.
use db_operator.Base.{
  sym, ◌>>=◌, Text, codes, is_empty, Result, ok, err, panic, Option, none, some, true, false, ◌≡◌,
  ◌⊎◌, inl, inr, refl, arith, Option-cases, Bool-cases,
}
use db_operator.Base.Maps.{lookup}
use db_operator.Shared.Strings.{nvl}
use db_operator.Shared.Connections.{Credentials}
use db_operator.Controllers.Credentials.{SecretData, read_key, credentials_of, credentials_with}

-- an optional entry: nil without a key, else what the secret holds for it
abbrev pub Reads : Text → SecretData → Option Text → Type 0
Reads key secret value =
    ((is_empty key ≡ true) × (value ≡ none))
    ⊎ ((is_empty key ≡ false) × (lookup key secret ≡ value) × ((v : Text) × (value ≡ some v)))

read_key-Reads :
    (key : Text) (secret : SecretData) (value : Option Text)
    → read_key key secret ≡ ok value
    → Reads key secret value
unfolding read_key
read_key-Reads key secret value h = elim (Bool-cases (is_empty key)) [
  | inl blank ↦ inl (blank, ground (arith, rw (read_key, blank) at h))
  | inr named ↦ elim (Option-cases (lookup key secret)) [
    | inl missing ↦ cc (rw (read_key, named, missing) at h)
    | inr (v, found) ↦
        let same : some v ≡ value = ground (arith, rw (read_key, named, found) at h) in
        inr (named, cc (found, same), (v, cc same))
  ]
]

-- Credentials that are read have the given user name, the entry of the password key, or of "password"
-- without a key, as the password if it is there, and for each certificate or key that is named the
-- entry of that name, which is there.
pub credentials_of-Reads :
    (user password_key ca key crt : Text) (secret : SecretData) (creds : Credentials)
    → credentials_of user password_key ca key crt secret ≡ ok creds
    → (creds.user_name ≡ user)
      × (creds.password ≡ lookup (nvl password_key (codes "password")) secret)
      × Reads ca secret creds.ca_cert
      × Reads key secret creds.tls_key
      × Reads crt secret creds.tls_crt
unfolding credentials_of
credentials_of-Reads user password_key ca key crt secret creds h =
    go (read_key ca secret) (read_key key secret) (read_key crt secret) refl refl refl h
  where
    go :
        (a b c : Result (Option Text))
        → read_key ca secret ≡ a
        → read_key key secret ≡ b
        → read_key crt secret ≡ c
        → (a >>= λ x. b >>= λ y. c >>= λ z.
            ok (credentials_with user (lookup (nvl password_key (codes "password")) secret) x y z))
          ≡ ok creds
        → (creds.user_name ≡ user)
          × (creds.password ≡ lookup (nvl password_key (codes "password")) secret)
          × Reads ca secret creds.ca_cert
          × Reads key secret creds.tls_key
          × Reads crt secret creds.tls_crt
    go (ok x) (ok y) (ok z) e f g h =
        let same : credentials_with user (lookup (nvl password_key (codes "password")) secret) x y z
            ≡ creds =
          ground (arith, h) in
        rw (sym same) (
          refl,
          refl,
          read_key-Reads ca secret x e,
          read_key-Reads key secret y f,
          read_key-Reads crt secret z g,
        )
    go (ok x) (ok y) (err _) e f g h = cc
    go (ok x) (ok y) panic e f g h = cc
    go (ok x) (err _) c e f g h = cc
    go (ok x) panic c e f g h = cc
    go (err _) b c e f g h = cc
    go panic b c e f g h = cc
