-- ===== src/Postgres/Tests/Certificates.antt =====
-- Files of certificates, and a digest that tells three certificates apart and not all texts.
use db_operator.Base.{
  arith, text_eq_iff, sym, false, ◌⊎◌, inl, inr, Text, codes, text_eq, ok, List, [], ◌∷◌, ◌++◌,
  Option, none, some, is_some, true, ◌≡◌, refl, drop, ap, text_eq_refl, subst, ◌∙◌,
}
use db_operator.Base.Maps.{lookup, store, lookup-store}
use db_operator.Interfaces.Files.{Files}
use db_operator.Shared.Connections.{Credentials}
use db_operator.Postgres.Connector.{
  temp_path, entry, write_to_temp_file, write_optional, write_certs,
}
use db_operator.Postgres.Connector.Certificates.{
  FileLaws, Honest, StoredIf, path_if, write_certs-Stored,
}

abbrev pub Disk : Type 0
Disk = List (Text × Text)

abbrev pub disk_files : Files Disk
disk_files = record {
  digest = λ c. drop 1 c;
  stat = λ p w. (is_some (lookup p w), w);
  mkdir_all = λ p w. w;
  write_file = λ p c w. (ok tt, store p c w);
}

abbrev on_disk : Text → Disk → Option Text
on_disk p w = lookup p w

is_some-found : (o : Option Text) → is_some o ≡ true → (t : Text) × (o ≡ some t)
is_some-found none h = cc
is_some-found (some t) h = (t, refl)

abbrev IsCert : Text → Type 0
IsCert c = (c ≡ codes "ca") ⊎ (c ≡ codes "crt") ⊎ (c ≡ codes "key")

clash : (x y a b : Text) → a ≡ x → b ≡ y → a ≡ b → text_eq x y ≡ false → ⊥
clash x y a b p q h differ = ground (arith, text_eq_iff x y, p, q, h, differ)

-- for the digests of two certificates
digests :
    (a b c d : Text)
    → a ≡ c
    → b ≡ d
    → drop 1 a ≡ drop 1 b
    → text_eq (drop 1 c) (drop 1 d) ≡ false
    → ⊥
digests a b c d p q h =
    clash (drop 1 c) (drop 1 d) (drop 1 a) (drop 1 b) (ap (drop 1) p) (ap (drop 1) q) h

apart : (a b : Text) → IsCert a → IsCert b → drop 1 a ≡ drop 1 b → a ≡ b
unfolding text_eq
apart a b (inl p) (inl q) h = p ∙ sym q
apart a b (inl p) (inr (inl q)) h = absurd (digests a b (codes "ca") (codes "crt") p q h refl)
apart a b (inl p) (inr (inr q)) h = absurd (digests a b (codes "ca") (codes "key") p q h refl)
apart a b (inr (inl p)) (inl q) h = absurd (digests a b (codes "crt") (codes "ca") p q h refl)
apart a b (inr (inl p)) (inr (inl q)) h = p ∙ sym q
apart a b (inr (inl p)) (inr (inr q)) h =
    absurd (digests a b (codes "crt") (codes "key") p q h refl)
apart a b (inr (inr p)) (inl q) h = absurd (digests a b (codes "key") (codes "ca") p q h refl)
apart a b (inr (inr p)) (inr (inl q)) h =
    absurd (digests a b (codes "key") (codes "crt") p q h refl)
apart a b (inr (inr p)) (inr (inr q)) h = p ∙ sym q

disk-FileLaws : FileLaws disk_files on_disk IsCert
disk-FileLaws = record {
  stat_keeps = λ p q w. refl;
  stat_there = λ p w there. is_some-found (lookup p w) there;
  written = λ p c w w' h.
      subst (λ v. lookup p v ≡ some c) (ap (λ r. r.1) h)
        (lookup-store p p c w ∙ rw (text_eq_refl p) refl);
  others_kept = λ p q c w w' h other.
      subst (λ v. lookup q v ≡ lookup q w) (ap (λ r. r.1) h) (lookup-store p q c w ∙ rw other refl);
  no_collision = λ a b known known' same. apart a b known known' (ap (drop 13) same);
}

abbrev creds : Credentials
creds = record {
  user_name = codes "app";
  password = none;
  ca_cert = none;
  tls_crt = some (codes "crt");
  tls_key = some (codes "key");
}

abbrev after : Disk
after =
    (temp_path (codes "a"), codes "ca")
    ∷ (temp_path (codes "ey"), codes "key")
    ∷ (temp_path (codes "rt"), codes "crt")
    ∷ []

abbrev ca : Option Text
ca = some (codes "ca")

abbrev tls_text : Text
tls_text =
    entry (codes "sslrootcert") (some (temp_path (codes "a")))
    ++ (entry (codes "sslkey") (some (temp_path (codes "ey")))
        ++ entry (codes "sslcert") (some (temp_path (codes "rt"))))

certs_written : write_certs disk_files creds ca [] ≡ (ok tls_text, after)
unfolding write_certs write_optional write_to_temp_file lookup store text_eq
certs_written = refl

empty-Honest : Honest disk_files on_disk IsCert []
unfolding lookup
empty-Honest c found known h = cc

write_certs-Stored_example :
    (tls_text
      ≡ entry (codes "sslrootcert") (path_if disk_files on_disk IsCert ca)
        ++ (entry (codes "sslkey") (path_if disk_files on_disk IsCert creds.tls_key)
            ++ entry (codes "sslcert") (path_if disk_files on_disk IsCert creds.tls_crt)))
    × StoredIf disk_files on_disk IsCert ca after
    × StoredIf disk_files on_disk IsCert creds.tls_key after
    × StoredIf disk_files on_disk IsCert creds.tls_crt after
    × Honest disk_files on_disk IsCert after
write_certs-Stored_example =
    write_certs-Stored disk_files on_disk IsCert disk-FileLaws creds ca tls_text [] after (inl refl)
      (inr (inr refl)) (inr (inl refl)) empty-Honest certs_written
