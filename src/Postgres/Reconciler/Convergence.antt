-- ===== src/Postgres/Reconciler/Convergence.antt =====
-- What `ReconcilePrivs` achieves on a server whose grants and revokes do what they say.
use db_operator.Base.{
  no_member, Text, ok, List, [], ◌∷◌, Bool, true, false, not, ◌&&◌, ◌||◌, ◌≡◌, refl, arith, member,
  SameSet,
}
use db_operator.Base.Exec.{Exec}
use db_operator.Interfaces.Funk.{Funk}
use db_operator.Interfaces.Sql.{Sql}
use db_operator.Postgres.Reconciler.{PrivsReconciler, Changes, done, adjust, reconcile_privs}

module _ ⦃funk : Funk⦄ ⦃db : Sql⦄ where
  open db use {World}

  -- a list of words that a statement can name
  abbrev pub Wordy : (Text → Type 0) → List Text → Type 0
  Wordy Word ps = (a : Text) → member a ps ≡ true → Word a

  abbrev pub revoked : PrivsReconciler db → List Text → Exec World (Unit {0})
  revoked r ps = r.revoke_fun r.conn r.user_name r.scoped_name ps

  abbrev pub granted : PrivsReconciler db → List Text → Exec World (Unit {0})
  granted r ps = r.grant_fun r.conn r.user_name r.scoped_name ps

  -- The three functions of a reconciler act on the set of privileges that its user holds on its
  -- object, as long as the server is up and a list of privileges is not empty and has words only that
  -- a statement can name. The user holds such words only.
  pub record Serves (r : PrivsReconciler db) (Word : Text → Type 0) (Up : World → Type 0)
      (privs : World → List Text) : Type 0 where
    pub desired_words : Wordy Word r.desired_priv_set
    pub held_words : (w : World) → Up w → Wordy Word (privs w)
    pub found :
        (w : World) → Up w → r.privs_get_fun r.conn r.user_name r.scoped_name w ≡ (ok (privs w), w)
    pub revoke_ok :
        (p : Text) (ps : List Text) (w : World)
        → Up w
        → Wordy Word (p ∷ ps)
        → ((revoked r (p ∷ ps) w).0 ≡ ok tt) × Up (revoked r (p ∷ ps) w).1
    pub revoke_privs :
        (p : Text) (ps : List Text) (w : World) (a : Text)
        → Up w
        → Wordy Word (p ∷ ps)
        → member a (privs (revoked r (p ∷ ps) w).1)
          ≡ (member a (privs w) && not (member a (p ∷ ps)))
    pub grant_ok :
        (p : Text) (ps : List Text) (w : World)
        → Up w
        → Wordy Word (p ∷ ps)
        → ((granted r (p ∷ ps) w).0 ≡ ok tt) × Up (granted r (p ∷ ps) w).1
    pub grant_privs :
        (p : Text) (ps : List Text) (w : World) (a : Text)
        → Up w
        → Wordy Word (p ∷ ps)
        → member a (privs (granted r (p ∷ ps) w).1) ≡ (member a (privs w) || member a (p ∷ ps))

  module _ (r : PrivsReconciler db) (Word : Text → Type 0) (Up : World → Type 0)
      (privs : World → List Text) (serves : Serves r Word Up privs) where
    abbrev Settled : (World → Type 0)
    Settled w = Up w × SameSet (privs w) r.desired_priv_set

    -- the grant round
    grant_round :
        (to_grant : List Text) (changed : Bool) (w : World)
        → Up w
        → Wordy Word to_grant
        → ((a : Text) → (member a (privs w) || member a to_grant) ≡ member a r.desired_priv_set)
        → ((adjust to_grant
              (r.grant_fun r.conn r.user_name r.scoped_name to_grant)
              changed
              done
              w).1
            ≡ ok tt)
          × Settled
              (adjust to_grant
                (r.grant_fun r.conn r.user_name r.scoped_name to_grant)
                changed
                done
                w).2
    unfolding member
    grant_round [] changed w up words same = (refl, (up, λ a. ground (arith, same a)))
    grant_round (p ∷ ps) changed w up words same =
        let (fine, still) = serves.grant_ok p ps w up words in
        rw fine (refl, (still, λ a. ground (arith, serves.grant_privs p ps w a up words, same a)))

    abbrev finish : List Text → Bool → World → Changes World
    finish to_grant changed =
        adjust to_grant (r.grant_fun r.conn r.user_name r.scoped_name to_grant) changed done

    abbrev start : List Text → List Text → World → Changes World
    start to_revoke to_grant =
        adjust to_revoke (r.revoke_fun r.conn r.user_name r.scoped_name to_revoke) false
          (finish to_grant)

    both_rounds :
        (to_revoke to_grant : List Text) (w : World)
        → Up w
        → Wordy Word to_revoke
        → Wordy Word to_grant
        → ((a : Text)
            → member a to_revoke ≡ (member a (privs w) && not (member a r.desired_priv_set)))
        → ((a : Text)
            → member a to_grant ≡ (member a r.desired_priv_set && not (member a (privs w))))
        → ((start to_revoke to_grant w).1 ≡ ok tt) × Settled (start to_revoke to_grant w).2
    unfolding member
    both_rounds [] to_grant w up old new left right =
        grant_round to_grant false w up new (λ a. ground (arith, left a, right a))
    both_rounds (p ∷ ps) to_grant w up old new left right =
        let (fine, still) = serves.revoke_ok p ps w up old in
        rw fine (
          grant_round to_grant true (revoked r (p ∷ ps) w).1 still new
            (λ a. ground (arith, serves.revoke_privs p ps w a up old, left a, right a)))

    surplus_words : (w : World) → Up w → Wordy Word (funk.difference (privs w) r.desired_priv_set).0
    surplus_words w up a m =
        serves.held_words w up a
          (ground (arith, m, funk.member-difference_left (privs w) r.desired_priv_set a))

    missing_words : (w : World) → Up w → Wordy Word (funk.difference (privs w) r.desired_priv_set).1
    missing_words w up a m =
        serves.desired_words a
          (ground (arith, m, funk.member-difference_right (privs w) r.desired_priv_set a))

    -- On a server that is up, whose GRANT and REVOKE give and take the listed privileges wherever
    -- these are words that a statement can name, where the desired and the held privileges are such
    -- words: one reconciliation succeeds, the server stays up, and the user then holds exactly the
    -- desired privileges.
    pub reconcile_privs-converges :
        (w : World)
        → Up w
        → ((reconcile_privs r w).1 ≡ ok tt)
          × Up (reconcile_privs r w).2
          × SameSet (privs (reconcile_privs r w).2) r.desired_priv_set
    unfolding reconcile_privs
    reconcile_privs-converges w up =
        let (fine, settled) =
          both_rounds (funk.difference (privs w) r.desired_priv_set).0
            (funk.difference (privs w) r.desired_priv_set).1 w up (surplus_words w up)
            (missing_words w up) (funk.member-difference_left (privs w) r.desired_priv_set)
            (funk.member-difference_right (privs w) r.desired_priv_set) in
        rw (serves.found w up) (fine, settled.0, settled.1)

    -- On the same server, when the user already holds exactly the desired privileges: a reconciliation
    -- reports no change and leaves the server as it is.
    pub reconcile_privs-settled :
        (w : World)
        → Up w
        → SameSet (privs w) r.desired_priv_set
        → reconcile_privs r w ≡ (false, ok tt, w)
    unfolding reconcile_privs
    reconcile_privs-settled w up same =
        let left = no_member (funk.difference (privs w) r.desired_priv_set).0 (λ a.
          ground (arith, funk.member-difference_left (privs w) r.desired_priv_set a, same a)) in
        let right = no_member (funk.difference (privs w) r.desired_priv_set).1 (λ a.
          ground (arith, funk.member-difference_right (privs w) r.desired_priv_set a, same a)) in
        rw (serves.found w up) (rw left (rw right))
