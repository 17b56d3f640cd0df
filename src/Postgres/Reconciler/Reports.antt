-- ===== src/Postgres/Reconciler/Reports.antt =====
-- What the answer of `ReconcilePrivs` says, on any server.
use db_operator.Base.{
  Text, Error, Result, ok, err, panic, List, [], ◌∷◌, true, false, ◌≡◌, ◌⊎◌, refl, arith, member,
  SameSet, is_empty,
}
use db_operator.Interfaces.Funk.{Funk}
use db_operator.Interfaces.Sql.{Sql}
use db_operator.Postgres.Reconciler.{
  Exec, with_found, PrivsReconciler, Changes, done, adjust, adjust_privs, reconcile_privs,
}

module _ ⦃funk : Funk⦄ ⦃db : Sql⦄ (r : PrivsReconciler db) where
  open db use {World}

  -- what is to be revoked and to be granted
  abbrev pub surplus : List Text → List Text
  surplus found = (funk.difference found r.desired_priv_set).0

  abbrev pub missing : List Text → List Text
  missing found = (funk.difference found r.desired_priv_set).1

  same-nothing :
      (found : List Text)
      → surplus found ≡ []
      → missing found ≡ []
      → SameSet found r.desired_priv_set
  unfolding member
  same-nothing found no_surplus no_missing a =
      let left = funk.member-difference_left found r.desired_priv_set a in
      let right = funk.member-difference_right found r.desired_priv_set a in
      let none_left : member a (surplus found) ≡ false = rw no_surplus refl in
      let none_right : member a (missing found) ≡ false = rw no_missing refl in
      ground (arith, left, right, none_left, none_right)

  unchanged-nothing :
      (found : List Text) (w w' : World)
      → adjust_privs r found w ≡ (false, ok tt, w')
      → (surplus found ≡ []) × (missing found ≡ []) × (w ≡ w')
  unfolding adjust_privs
  unchanged-nothing found w w' h = ground arith

  -- On any server: when a reconciliation succeeds and reports no change, it has executed nothing
  -- after it read the privileges, and these were exactly the desired ones.
  pub reconcile_privs-unchanged :
      (w w' : World)
      → reconcile_privs r w ≡ (false, ok tt, w')
      → (found : List Text) × (r.privs_get_fun r.conn r.user_name r.scoped_name w ≡ (ok found, w'))
        × SameSet found r.desired_priv_set
  unfolding reconcile_privs
  reconcile_privs-unchanged w w' h =
      go (r.privs_get_fun r.conn r.user_name r.scoped_name w).0
        (r.privs_get_fun r.conn r.user_name r.scoped_name w).1 refl refl h
    where
      go :
          (read : Result (List Text)) (w₁ : World)
          → (r.privs_get_fun r.conn r.user_name r.scoped_name w).0 ≡ read
          → (r.privs_get_fun r.conn r.user_name r.scoped_name w).1 ≡ w₁
          → with_found (adjust_privs r) read w₁ ≡ (false, ok tt, w')
          → (found : List Text) × (r.privs_get_fun r.conn r.user_name r.scoped_name w
              ≡ (ok found, w'))
            × SameSet found r.desired_priv_set
      go (ok found) w₁ e f g =
          let (no_surplus, no_missing, same) = unchanged-nothing found w₁ w' g in
          (found, cc (e, f, same), same-nothing found no_surplus no_missing)
      go (err x) w₁ e f g = cc
      go panic w₁ e f g = cc

  -- how the two statements of a reconciliation can fail with an error
  abbrev pub Failed :
      (revoke grant : List Text → Exec World (Unit {0}))
      → List Text
      → List Text
      → Error
      → World
      → Changes World
      → Type 0
  Failed revoke grant to_revoke to_grant e w out =
      ((is_empty to_revoke ≡ false) × (revoke to_revoke w ≡ (err e, out.2)) × (out.0 ≡ false))
      ⊎ ((is_empty to_revoke ≡ false)
          × (is_empty to_grant ≡ false)
          × (revoke to_revoke w ≡ (ok tt, (revoke to_revoke w).1))
          × (grant to_grant (revoke to_revoke w).1 ≡ (err e, out.2))
          × (out.0 ≡ true))
      ⊎ ((is_empty to_revoke ≡ true)
          × (is_empty to_grant ≡ false)
          × (grant to_grant w ≡ (err e, out.2))
          × (out.0 ≡ false))

  two_statements :
      (revoke grant : List Text → Exec World (Unit {0})) (to_revoke to_grant : List Text)
      (e : Error) (w : World)
      → (adjust to_revoke
          (revoke to_revoke)
          false
          (λ c. adjust to_grant (grant to_grant) c done)
          w).1
        ≡ err e
      → Failed revoke grant to_revoke to_grant e w (
          adjust to_revoke
            (revoke to_revoke)
            false
            (λ c. adjust to_grant (grant to_grant) c done)
            w)
  two_statements revoke grant [] [] e w h = cc
  two_statements revoke grant [] (g ∷ gs) e w h = ground arith
  two_statements revoke grant (p ∷ ps) [] e w h = ground arith
  two_statements revoke grant (p ∷ ps) (g ∷ gs) e w h = ground arith

  -- On any server: when a reconciliation has read the privileges and then fails, either the
  -- revocation of the surplus failed, nothing was granted and no change is reported; or the grant of
  -- what is missing failed, and a change is reported exactly if a surplus was revoked before.
  pub reconcile_privs-Failed :
      (w w₁ : World) (found : List Text) (e : Error)
      → r.privs_get_fun r.conn r.user_name r.scoped_name w ≡ (ok found, w₁)
      → (reconcile_privs r w).1 ≡ err e
      → Failed
          (r.revoke_fun r.conn r.user_name r.scoped_name)
          (r.grant_fun r.conn r.user_name r.scoped_name)
          (surplus found)
          (missing found)
          e
          w₁
          (reconcile_privs r w)
  unfolding reconcile_privs adjust_privs
  reconcile_privs-Failed w w₁ found e read h = rw read (
      two_statements (r.revoke_fun r.conn r.user_name r.scoped_name)
        (r.grant_fun r.conn r.user_name r.scoped_name) (surplus found) (missing found) e w₁
        (rw read at h))
