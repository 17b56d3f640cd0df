-- ===== src/MySql/Users/Guards.antt =====
-- Which statements `privilegesRevoke` and `privilegesGrant` let through, and what becomes of an error.
use db_operator.Base.Maps.{lookup}
use db_operator.Base.{
  ◌==◌, text_eq_iff, inl, inr, Text, text_eq, Error, Result, ok, err, panic, member, length, List,
  [], ◌∷◌, Bool, true, false, ◌≡◌, ◌≢◌, ◌⊎◌, ◌↔◌, refl, arith, ◌≤◌, codes,
}
use db_operator.Interfaces.Funk.{Funk}
use db_operator.Interfaces.Sql.{Sql}
use db_operator.MySql.Unpack.{all_objects}
use db_operator.MySql.Users.{
  lookup, split_grant, shorten, revoke_from, revoke_surplus, grant_missing, update_privileges,
}
use db_operator.MySql.Statements.{
  is_quoted, check_names, privileges_revoke, privileges_grant, revoke_statement, grant_statement,
}

-- The guards let a statement through exactly for a host and a user that are not empty and do not
-- begin with a quote, and an object that is `*.*` or begins with one.
pub check_names_ok :
    (user host t : Text)
    → (check_names user host t ≡ ok tt) ↔ (
        (is_quoted host ≡ ok false)
        × (is_quoted user ≡ ok false)
        × ((text_eq t all_objects ≡ true) ⊎ (is_quoted t ≡ ok true)))
unfolding check_names is_quoted
check_names_ok user [] t = ground arith
check_names_ok [] (h ∷ hs) t = ground arith
check_names_ok (u ∷ us) (h ∷ hs) [] = ground arith
check_names_ok (u ∷ us) (h ∷ hs) (c ∷ t) = ground arith

-- a name that is there and does not begin with a quote
abbrev pub Bare : Text → Type 0
Bare [] = ⊥
Bare (c ∷ _) = (c == b'"') ≡ false × ((c == b'`') ≡ false)

-- an object that begins with a quote
abbrev pub Quoted : Text → Type 0
Quoted [] = ⊥
Quoted (c ∷ _) = ((c == b'"') ≡ true) ⊎ ((c == b'`') ≡ true)

abbrev pub Allowed : Text → Text → Text → Type 0
Allowed user host t = Bare host × Bare user × ((t ≡ all_objects) ⊎ Quoted t)

check_names-Allowed : (user host t : Text) → check_names user host t ≡ ok tt → Allowed user host t
unfolding check_names is_quoted
check_names-Allowed user [] t h = cc
check_names-Allowed [] (h ∷ hs) t e = ground (arith, e)
check_names-Allowed (u ∷ us) (h ∷ hs) [] e = ground (arith, e, text_eq_iff [] all_objects)
check_names-Allowed (u ∷ us) (h ∷ hs) (c ∷ t) e = ground (arith, e, text_eq_iff (c ∷ t) all_objects)

Allowed-check_names : (user host t : Text) → Allowed user host t → check_names user host t ≡ ok tt
unfolding check_names is_quoted
Allowed-check_names user [] t (bare, bare', rest) = absurd bare
Allowed-check_names [] (h ∷ hs) t (bare, bare', e) = absurd bare'
Allowed-check_names (u ∷ us) (h ∷ hs) [] ((a, b), (c, d), inl e) =
    ground (arith, a, b, c, d, e, text_eq_iff [] all_objects)
Allowed-check_names (u ∷ us) (h ∷ hs) [] ((a, b), (c, d), inr e) = absurd e
Allowed-check_names (u ∷ us) (h ∷ hs) (x ∷ t) ((a, b), (c, d), e) =
    ground (arith, a, b, c, d, e, text_eq_iff (x ∷ t) all_objects)

module _ ⦃funk : Funk⦄ ⦃db : Sql⦄ (conn : db.Conn) (user host : Text) where
  open db use {World}

  abbrev pub Refused : (World → Result (Unit {0}) × World) → World → Type 0
  Refused step w = ((step w).0 ≢ ok tt) × ((step w).1 ≡ w)

  check_names-Refused :
      (t : Text) (ps : List Text) (option : Bool) (w : World)
      → check_names user host t ≢ ok tt
      → Refused (privileges_revoke conn user host t ps option) w
        × Refused (privileges_grant conn user host t ps) w
  unfolding privileges_revoke privileges_grant
  check_names-Refused t ps option w bad = go (check_names user host t) refl
    where
      go :
          (r : Result (Unit {0}))
          → check_names user host t ≡ r
          → Refused (privileges_revoke conn user host t ps option) w
            × Refused (privileges_grant conn user host t ps) w
      go (ok tt) e = absurd (bad e)
      go (err x) e = (
        (rw (privileges_revoke, e) (λ k. cc), rw (privileges_revoke, e) refl),
        (rw (privileges_grant, e) (λ k. cc), rw (privileges_grant, e) refl),
      )
      go panic e = (
        (rw (privileges_revoke, e) (λ k. cc), rw (privileges_revoke, e) refl),
        (rw (privileges_grant, e) (λ k. cc), rw (privileges_grant, e) refl),
      )

  -- A GRANT, and a REVOKE without the grant option, is executed as the one statement for the listed
  -- privileges when host and user are not empty and do not begin with a quote, and the object is
  -- `*.*` or begins with one. In every other case no REVOKE, with or without the grant option, and no
  -- GRANT reaches the server, and neither succeeds.
  pub guarded_statements :
      (t : Text) (ps : List Text) (option : Bool) (w : World)
      → (Allowed user host t
          → (privileges_revoke conn user host t ps false w
              ≡ db.exec conn (revoke_statement user host t ps) [] w)
            × (privileges_grant conn user host t ps w
                ≡ db.exec conn (grant_statement user host t ps) [] w))
        × (¬ Allowed user host t
            → Refused (privileges_revoke conn user host t ps option) w
              × Refused (privileges_grant conn user host t ps) w)
  unfolding privileges_revoke privileges_grant
  guarded_statements t ps option w = (
    λ fine.
        let passed = Allowed-check_names user host t fine in
        (rw (privileges_revoke, passed) refl, rw (privileges_grant, passed) refl),
    λ bad.
        check_names-Refused t ps option w (λ passed. bad (check_names-Allowed user host t passed)),
  )

  -- When the REVOKE of the only surplus fails, and nothing is wanted, `UpdateUserPrivs` reports a
  -- change and no error.
  pub update_privileges-lost_error :
      (t p : Text) (ps qs : List Text) (e : Error) (w w' : World)
      → length ps ≤ 50
      → member (codes "GRANT") ps ≡ false
      → funk.subtract ps [] ≡ p ∷ qs
      → privileges_revoke conn user host t (p ∷ qs) false w ≡ (err e, w')
      → update_privileges conn user host ((t, ps) ∷ []) [] w ≡ (true, ok tt, w')
  unfolding update_privileges revoke_surplus revoke_from shorten split_grant grant_missing lookup
  update_privileges-lost_error t p ps qs e w w' short no_grant surplus fails =
      ground (arith, short, funk.index_of-none ps (codes "GRANT") no_grant, surplus, fails)
