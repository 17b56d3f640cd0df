-- ===== src/MySql/Users/Loops.antt =====
-- What each of the two loops of `UpdateUserPrivs` does to a server whose grants and revokes do what
-- they say.
use db_operator.Base.{
  Text, codes, text_eq, member, length, All, ok, List, [], ◌∷◌, Bool, true, false, not, ◌&&◌, ◌||◌,
  ◌≡◌, ◌≤◌, refl, arith,
}
use db_operator.Interfaces.Funk.{Funk}
use db_operator.Interfaces.Sql.{Sql}
use db_operator.MySql.Unpack.{PrivMap}
use db_operator.MySql.Users.{
  wanted, shorten, split_grant, revoke_from, revoke_surplus, grant_missing,
}
use db_operator.MySql.Statements.{privileges_revoke, privileges_grant}

-- a list of words that a statement can name
abbrev pub Wordy : (Text → Type 0) → List Text → Type 0
Wordy Word ps = (a : Text) → member a ps ≡ true → Word a

-- an entry of the current privileges that the first loop takes as it is
abbrev pub Plain : (Text → Type 0) → (Text → Type 0) → Text × List Text → Type 0
Plain Word Object (t, ps) =
    Object t × Wordy Word ps × (length ps ≤ 50) × (member (codes "GRANT") ps ≡ false)

abbrev pub Proper : (Text → Type 0) → (Text → Type 0) → Text × List Text → Type 0
Proper Word Object (t, ps) = Object t × Wordy Word ps

-- the privileges that the entries of the first map hold and the second does not want
abbrev pub excess : PrivMap → PrivMap → Text → Text → Bool
excess [] other t a = false
excess ((k, ps) ∷ m) other t a =
    (text_eq k t && (member a ps && not (member a (wanted other k)))) || excess m other t a

module _ ⦃funk : Funk⦄ ⦃db : Sql⦄ (conn : db.Conn) (user host : Text) where
  open db use {World}

  -- what a REVOKE without the grant option leaves
  abbrev pub after_revocation : Text → List Text → World → World
  after_revocation t ps w = (privileges_revoke conn user host t ps false w).1

  abbrev pub after_grant : Text → List Text → World → World
  after_grant t ps w = (privileges_grant conn user host t ps w).1

  -- The server has the privileges of the user by object, and as long as it is up, a statement that
  -- lists some words for an object takes or gives them.
  pub record Serves (Word Object : Text → Type 0) (Up : World → Type 0)
      (privs : World → Text → List Text) : Type 0 where
    pub revoke_ok :
        (t : Text) (p : Text) (ps : List Text) (w : World)
        → Up w
        → Object t
        → Wordy Word (p ∷ ps)
        → ((privileges_revoke conn user host t (p ∷ ps) false w).0 ≡ ok tt)
          × Up (after_revocation t (p ∷ ps) w)
    pub revoke_privs :
        (t : Text) (p : Text) (ps : List Text) (w : World) (t' a : Text)
        → Up w
        → Object t
        → Wordy Word (p ∷ ps)
        → member a (privs (after_revocation t (p ∷ ps) w) t')
          ≡ (member a (privs w t') && not (text_eq t t' && member a (p ∷ ps)))
    pub grant_ok :
        (t : Text) (p : Text) (ps : List Text) (w : World)
        → Up w
        → Object t
        → Wordy Word (p ∷ ps)
        → ((privileges_grant conn user host t (p ∷ ps) w).0 ≡ ok tt) × Up (after_grant t (p ∷ ps) w)
    pub grant_privs :
        (t : Text) (p : Text) (ps : List Text) (w : World) (t' a : Text)
        → Up w
        → Object t
        → Wordy Word (p ∷ ps)
        → member a (privs (after_grant t (p ∷ ps) w) t')
          ≡ (member a (privs w t') || (text_eq t t' && member a (p ∷ ps)))

  module _ (Word Object : Text → Type 0) (Up : World → Type 0) (privs : World → Text → List Text)
      (serves : Serves Word Object Up privs) where
    left_over :
        (ps others l : List Text) → funk.subtract ps others ≡ l → Wordy Word ps → Wordy Word l
    left_over ps others l e wordy a m =
        wordy a (ground (arith, m, rw e at (funk.member-subtract ps others a)))

    split-plain :
        (ps : List Text) → member (codes "GRANT") ps ≡ false → split_grant ps ≡ (false, ps)
    unfolding split_grant
    split-plain ps h = rw (split_grant, funk.index_of-none ps (codes "GRANT") h) refl

    shorten-plain : (ps : List Text) → length ps ≤ 50 → shorten ps ≡ ok ps
    unfolding shorten
    shorten-plain ps short = ground (arith, short)

    revoke_from-step :
        (desired : PrivMap) (k : Text) (ps : List Text) (w : World)
        → Up w
        → Plain Word Object (k, ps)
        → (changed : Bool) × (w' : World) × (revoke_from conn user host desired k ps w
            ≡ (ok changed, w'))
          × Up w'
          × ((t a : Text)
              → member a (privs w' t) ≡ (
                  member a (privs w t)
                  && not (text_eq k t && (member a ps && not (member a (wanted desired k))))))
    unfolding revoke_from member
    revoke_from-step desired k ps w up (names, wordy, short, no_grant) =
        go (funk.subtract ps (wanted desired k)) refl
      where
        go :
            (l : List Text)
            → funk.subtract ps (wanted desired k) ≡ l
            → (changed : Bool) × (w' : World) × (revoke_from conn user host desired k ps w
                ≡ (ok changed, w'))
              × Up w'
              × ((t a : Text)
                  → member a (privs w' t) ≡ (
                      member a (privs w t)
                      && not (text_eq k t && (member a ps && not (member a (wanted desired k))))))
        go [] e = (
          false,
          w,
          rw (revoke_from, split-plain ps no_grant, e) refl,
          up,
          λ t a. ground (arith, rw e at (funk.member-subtract ps (wanted desired k) a)),
        )
        go (p ∷ qs) e =
            let (fine, up') =
              serves.revoke_ok k p qs w up names (left_over ps _ (p ∷ qs) e wordy) in
            (
              true,
              after_revocation k (p ∷ qs) w,
              rw (revoke_from, split-plain ps no_grant, e, fine) refl,
              up',
              λ t a. ground (
                arith,
                rw e at (funk.member-subtract ps (wanted desired k) a),
                serves.revoke_privs k p qs w t a up names (left_over ps _ (p ∷ qs) e wordy),
              ),
            )

    pub revoke_surplus-step :
        (desired cur : PrivMap) (w : World)
        → Up w
        → All (Plain Word Object) cur
        → (changed : Bool) × (w' : World) × (revoke_surplus conn user host desired cur w
            ≡ (ok (changed, cur), w'))
          × Up w'
          × ((t a : Text)
              → member a (privs w' t) ≡ (member a (privs w t) && not (excess cur desired t a)))
    unfolding revoke_surplus
    revoke_surplus-step desired [] w up plain = (false, w, refl, up, λ t a. ground arith)
    revoke_surplus-step desired ((k, ps) ∷ cur) w up ((names, wordy, short, no_grant), rest) =
        let (here, w₁, e₁, up₁, holds₁) =
          revoke_from-step desired k ps w up (names, wordy, short, no_grant) in
        let (later, w₂, e₂, up₂, holds₂) = revoke_surplus-step desired cur w₁ up₁ rest in
        (
          here || later,
          w₂,
          rw (revoke_surplus, shorten-plain ps short, e₁, e₂) refl,
          up₂,
          λ t a. ground (arith, holds₁ t a, holds₂ t a),
        )

    -- the second loop ends well, and the user holds the missing privileges as well
    abbrev pub Granted : PrivMap → PrivMap → Bool → World → Type 0
    Granted cur desired changed w =
        ((grant_missing conn user host cur desired changed w).1 ≡ ok tt)
        × Up (grant_missing conn user host cur desired changed w).2
        × ((t a : Text)
            → member a (privs (grant_missing conn user host cur desired changed w).2 t)
              ≡ (member a (privs w t) || excess desired cur t a))

    grant_missing-entry :
        (cur desired : PrivMap) (k : Text) (ps l : List Text) (changed : Bool) (w : World)
        → Up w
        → Object k
        → Wordy Word ps
        → funk.subtract ps (wanted cur k) ≡ l
        → ((c : Bool) (w' : World) → Up w' → Granted cur desired c w')
        → Granted cur ((k, ps) ∷ desired) changed w
    unfolding grant_missing member
    grant_missing-entry cur desired k ps [] changed w up names wordy e recur =
        let (fine, up', holds) = recur changed w up in
        rw (grant_missing, e)
          (
            fine,
            up',
            λ t a. ground (arith, holds t a, rw e at (funk.member-subtract ps (wanted cur k) a)),
          )
    grant_missing-entry cur desired k ps (p ∷ qs) changed w up names wordy e recur =
        let (granted, up₁) = serves.grant_ok k p qs w up names (left_over ps _ (p ∷ qs) e wordy) in
        let (fine, up', holds) = recur true (after_grant k (p ∷ qs) w) up₁ in
        rw (grant_missing, e, granted)
          (
            fine,
            up',
            λ t a. ground (
              arith,
              holds t a,
              rw e at (funk.member-subtract ps (wanted cur k) a),
              serves.grant_privs k p qs w t a up names (left_over ps _ (p ∷ qs) e wordy),
            ),
          )

    pub grant_missing-Granted :
        (cur desired : PrivMap) (changed : Bool) (w : World)
        → Up w
        → All (Proper Word Object) desired
        → Granted cur desired changed w
    unfolding grant_missing
    grant_missing-Granted cur [] changed w up proper = (refl, up, λ t a. ground arith)
    grant_missing-Granted cur ((k, ps) ∷ desired) changed w up ((names, wordy), rest) =
        grant_missing-entry cur desired k ps (funk.subtract ps (wanted cur k)) changed w up names
          wordy refl (λ c w' up'. grant_missing-Granted cur desired c w' up' rest)
