-- ===== src/Postgres/Connector/Certificates.antt =====
-- The files that a connection text names.
use db_operator.Base.{
  Text, codes, text_eq, text_eq_iff, Result, ok, ◌++◌, Option, none, some, Bool, true, false, ◌≡◌,
  inl, inr, sym, ap, ◌∙◌, subst, Bool-cases, if◌then◌else◌,
}
use db_operator.Base.Exec.{Exec, pure, bind-ok, ◌>>=◌}
use db_operator.Interfaces.Files.{Files}
use db_operator.Shared.Connections.{Credentials}
use db_operator.Postgres.Connector.{
  temp_path, entry, write_to_temp_file, write_optional, write_certs,
}

-- some contents are known, among which no two have the same digest
module _ {W : Type 0} (files : Files W) (contents : Text → W → Option Text)
    (Known : Text → Type 0) where
  abbrev pub path_of : Text → Text
  path_of c = temp_path (files.digest c)

  -- a file system, and digests without a collision among the known contents
  pub record FileLaws : Type 0 where
    pub stat_keeps : (p q : Text) (w : W) → contents p (files.stat q w).1 ≡ contents p w
    pub stat_there :
        (p : Text) (w : W)
        → (files.stat p w).0 ≡ true
        → (found : Text) × (contents p w ≡ some found)
    pub written :
        (p c : Text) (w w' : W) → files.write_file p c w ≡ (ok tt, w') → contents p w' ≡ some c
    pub others_kept :
        (p q c : Text) (w w' : W)
        → files.write_file p c w ≡ (ok tt, w')
        → text_eq p q ≡ false
        → contents q w' ≡ contents q w
    pub no_collision : (a b : Text) → Known a → Known b → path_of a ≡ path_of b → a ≡ b

  -- a file that is named by known contents has them
  abbrev pub Honest : W → Type 0
  Honest w = (c found : Text) → Known c → contents (path_of c) w ≡ some found → found ≡ c

  abbrev pub Stored : Text → W → Type 0
  Stored c w = contents (path_of c) w ≡ some c

  -- what a file with a certificate leaves behind
  abbrev pub Grown : Text → W → W → Type 0
  Grown c w w' =
      Honest w' × Stored c w' × ((other : Text) → Known other → Stored other w → Stored other w')

  -- of a certificate that may be missing
  abbrev pub StoredIf : Option Text → W → Type 0
  StoredIf none w = Unit
  StoredIf (some c) w = Stored c w

  abbrev pub KnownIf : Option Text → Type 0
  KnownIf none = Unit
  KnownIf (some c) = Known c

  abbrev pub path_if : Option Text → Option Text
  path_if none = none
  path_if (some c) = some (path_of c)

  abbrev pub GrownIf : Option Text → W → W → Type 0
  GrownIf o w w' =
      Honest w'
      × StoredIf o w'
      × ((other : Option Text) → KnownIf other → StoredIf other w → StoredIf other w')

  module _ (laws : FileLaws) where
    write_file-Grown :
        (c : Text) (w w' : W)
        → Known c
        → Honest w
        → files.write_file (path_of c) c w ≡ (ok tt, w')
        → Grown c w w'
    write_file-Grown c w w' known honest h = (
      (λ d found known' there. elim (Bool-cases (text_eq (path_of c) (path_of d))) [
        | inl same ↦
            let p : path_of c ≡ path_of d = (text_eq_iff (path_of c) (path_of d)).0 same in
            cc (
              subst (λ q. contents q w' ≡ some c) p (laws.written (path_of c) c w w' h),
              there,
              laws.no_collision c d known known' p,
            )
        | inr other ↦
            honest d found known'
              (sym (laws.others_kept (path_of c) (path_of d) c w w' h other) ∙ there)
      ]),
      laws.written (path_of c) c w w' h,
      (λ d known' stored. elim (Bool-cases (text_eq (path_of c) (path_of d))) [
        | inl same ↦
            let p : path_of c ≡ path_of d = (text_eq_iff (path_of c) (path_of d)).0 same in
            cc (
              subst (λ q. contents q w' ≡ some c) p (laws.written (path_of c) c w w' h),
              laws.no_collision c d known known' p,
            )
        | inr other ↦ laws.others_kept (path_of c) (path_of d) c w w' h other ∙ stored
      ]),
    )

    stat-Honest : (q : Text) (w : W) → Honest w → Honest (files.stat q w).1
    stat-Honest q w honest d found known there =
        honest d found known (sym (laws.stat_keeps (path_of d) q w) ∙ there)

    stat-Grown :
        (c : Text) (w : W)
        → Known c
        → Honest w
        → (files.stat (path_of c) w).0 ≡ true
        → Grown c w (files.stat (path_of c) w).1
    stat-Grown c w known honest there =
        let (found, held) = laws.stat_there (path_of c) w there in
        (
          stat-Honest (path_of c) w honest,
          laws.stat_keeps (path_of c) (path_of c) w ∙ held ∙ ap some (honest c found known held),
          (λ d known' stored. laws.stat_keeps (path_of d) (path_of c) w ∙ stored),
        )

    -- a stat before changes nothing
    after_stat-Grown : (c q : Text) (w w' : W) → Grown c (files.stat q w).1 w' → Grown c w w'
    after_stat-Grown c q w w' (honest, stored, kept) =
        (honest, stored, λ d known before. kept d known (laws.stat_keeps (path_of d) q w ∙ before))

    written-Grown :
        (c path : Text) (w w' : W)
        → Known c
        → Honest w
        → (files.write_file (path_of c) c >>= λ _. pure (path_of c)) w ≡ (ok path, w')
        → (path ≡ path_of c) × Grown c w w'
    written-Grown c path w w' known honest h =
        let (u, w₁, fine, last) =
          bind-ok (files.write_file (path_of c) c) (λ _. pure (path_of c)) w w' path h in
        let same : w₁ ≡ w' = ap (λ r. r.1) last in
        (
          cc (ap (λ r. r.0) last),
          write_file-Grown c w w' known honest
              (subst (λ v. files.write_file (path_of c) c w ≡ (ok tt, v)) same fine),
        )

    write_to_temp_file-Grown :
        (c path : Text) (w w' : W)
        → Known c
        → Honest w
        → write_to_temp_file files c w ≡ (ok path, w')
        → (path ≡ path_of c) × Grown c w w'
    unfolding write_to_temp_file
    write_to_temp_file-Grown c path w w' known honest h =
        let w₁ : W = (files.stat (path_of c) w).1 in
        let choose : Bool → Result Text × W = λ b.
          if b
          then (ok (path_of c), w₁)
          else (files.write_file (path_of c) c >>= λ _. pure (path_of c)) w₁ in
        elim (Bool-cases (files.stat (path_of c) w).0) [
          | inl there ↦
              let found : (ok (path_of c), w₁) ≡ (ok path, w') =
                subst (λ b. choose b ≡ (ok path, w')) there h in
              (
                cc (ap (λ r. r.0) found),
                subst (Grown c w) (ap (λ r. r.1) found) (stat-Grown c w known honest there),
              )
          | inr missing ↦
              let (named, grown) =
                written-Grown c path w₁ w' known (stat-Honest (path_of c) w honest)
                  (subst (λ b. choose b ≡ (ok path, w')) missing h) in
              (named, after_stat-Grown c (path_of c) w w' grown)
        ]

    kept_if :
        (w w' : W)
        → ((other : Text) → Known other → Stored other w → Stored other w')
        → (other : Option Text) → KnownIf other
        → StoredIf other w
        → StoredIf other w'
    kept_if w w' kept none known stored = tt
    kept_if w w' kept (some c) known stored = kept c known stored

    write_optional-GrownIf :
        (o path : Option Text) (w w' : W)
        → KnownIf o
        → Honest w
        → write_optional files o w ≡ (ok path, w')
        → (path ≡ path_if o) × GrownIf o w w'
    unfolding write_optional
    write_optional-GrownIf none path w w' known honest h =
        let same : w ≡ w' = ap (λ r. r.1) h in
        (
          cc (ap (λ r. r.0) h),
          subst (GrownIf none w) same (honest, tt, λ other known' stored. stored),
        )
    write_optional-GrownIf (some c) path w w' known honest h =
        let (p, w₁, fine, last) =
          bind-ok (write_to_temp_file files c) (λ q. pure (some q)) w w' path h in
        let (named, grown) = write_to_temp_file-Grown c p w w₁ known honest fine in
        let (sound, stored, kept) = grown in
        let same : w₁ ≡ w' = ap (λ r. r.1) last in
        (
          cc (ap (λ r. r.0) last, named),
          subst (GrownIf (some c) w) same (sound, stored, kept_if w w₁ kept),
        )

    -- In a file system that keeps what is written to a path, and for certificates that are among known
    -- contents no two of which have the same digest: suppose that each file that is named by the
    -- digest of known contents has these contents. When the text for a connection is made, it names
    -- the file of each certificate that is given, and of no other, each of these files holds its
    -- certificate, also after the later ones were written, and the files named by known contents still
    -- have them.
    pub write_certs-Stored :
        (creds : Credentials) (ca_cert : Option Text) (text : Text) (w w' : W)
        → KnownIf ca_cert
        → KnownIf creds.tls_key
        → KnownIf creds.tls_crt
        → Honest w
        → write_certs files creds ca_cert w ≡ (ok text, w')
        → (text
            ≡ entry (codes "sslrootcert") (path_if ca_cert)
              ++ (entry (codes "sslkey") (path_if creds.tls_key)
                  ++ entry (codes "sslcert") (path_if creds.tls_crt)))
          × StoredIf ca_cert w'
          × StoredIf creds.tls_key w'
          × StoredIf creds.tls_crt w'
          × Honest w'
    unfolding write_certs write_optional
    write_certs-Stored creds ca_cert text w w' root_known key_known cert_known honest h =
        let finish : Option Text → Option Text → Option Text → Exec W Text = λ root key cert. pure (
          entry (codes "sslrootcert") root
          ++ (entry (codes "sslkey") key ++ entry (codes "sslcert") cert)) in
        let after_key : Option Text → Option Text → Exec W Text =
          λ root key. write_optional files creds.tls_crt >>= finish root key in
        let after_root : Option Text → Exec W Text =
          λ root. write_optional files creds.tls_key >>= after_key root in
        let (root, w₁, root_fine, then_key) =
          bind-ok (write_optional files ca_cert) after_root w w' text h in
        let (key, w₂, key_fine, then_cert) =
          bind-ok (write_optional files creds.tls_key) (after_key root) w₁ w' text then_key in
        let (cert, w₃, cert_fine, last) =
          bind-ok (write_optional files creds.tls_crt) (finish root key) w₂ w' text then_cert in
        let (root_named, root_grown) =
          write_optional-GrownIf ca_cert root w w₁ root_known honest root_fine in
        let (honest₁, root_stored, kept₁) = root_grown in
        let (key_named, key_grown) =
          write_optional-GrownIf creds.tls_key key w₁ w₂ key_known honest₁ key_fine in
        let (honest₂, key_stored, kept₂) = key_grown in
        let (cert_named, cert_grown) =
          write_optional-GrownIf creds.tls_crt cert w₂ w₃ cert_known honest₂ cert_fine in
        let (honest₃, cert_stored, kept₃) = cert_grown in
        let same : w₃ ≡ w' = ap (λ r. r.1) last in
        (
          cc (ap (λ r. r.0) last, root_named, key_named, cert_named),
          subst (StoredIf ca_cert) same
              (kept₃ ca_cert root_known (kept₂ ca_cert root_known root_stored)),
          subst (StoredIf creds.tls_key) same (kept₃ creds.tls_key key_known key_stored),
          subst (StoredIf creds.tls_crt) same cert_stored,
          subst Honest same honest₃,
        )
