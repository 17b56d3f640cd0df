-- ===== src/MySql/Users/Convergence.antt =====
-- What the two loops of `UpdateUserPrivs` achieve on a server whose grants and revokes do what they say.
use db_operator.Base.{
  is_some, Text, text_eq_iff, member, SameSet, All, ok, List, [], ◌∷◌, not, ◌&&◌, ◌≡◌, refl, arith,
}
use db_operator.Base.Maps.{lookup, Listed}
use db_operator.Interfaces.Funk.{Funk}
use db_operator.Interfaces.Sql.{Sql}
use db_operator.MySql.Unpack.{PrivMap}
use db_operator.MySql.Users.{wanted, update_privileges}
use db_operator.MySql.Users.Loops.{
  Plain, Proper, Serves, excess, revoke_surplus-step, grant_missing-Granted,
}

excess-Listed :
    (m whole other : PrivMap) (t a : Text)
    → All (Listed whole) m
    → excess m other t a
      ≡ (is_some (lookup t m) && (member a (wanted whole t) && not (member a (wanted other t))))
unfolding lookup
excess-Listed [] whole other t a listed = refl
excess-Listed ((k, ps) ∷ m) whole other t a (here, rest) =
    ground (arith, excess-Listed m whole other t a rest, text_eq_iff k t, here)

excess-whole :
    (m other : PrivMap) (t a : Text)
    → All (Listed m) m
    → excess m other t a ≡ (member a (wanted m t) && not (member a (wanted other t)))
unfolding member
excess-whole m other t a listed = ground (arith, excess-Listed m m other t a listed)

module _ ⦃funk : Funk⦄ ⦃db : Sql⦄ (conn : db.Conn) (user host : Text) where
  open db use {World}

  module _ (Word Object : Text → Type 0) (Up : World → Type 0) (privs : World → Text → List Text)
      (serves : Serves conn user host Word Object Up privs) where
    -- When the current and the desired privileges list words and objects that the server knows, have
    -- one entry for an object, and the current ones are what the user holds, without GRANT and with at
    -- most 50 privileges for an object: the two loops succeed, the server stays up, and the user then
    -- holds exactly the desired privileges on every object.
    pub update_privileges-converges :
        (cur desired : PrivMap) (w : World)
        → Up w
        → All (Plain Word Object) cur
        → All (Proper Word Object) desired
        → All (Listed cur) cur
        → All (Listed desired) desired
        → ((t a : Text) → member a (privs w t) ≡ member a (wanted cur t))
        → ((update_privileges conn user host cur desired w).1 ≡ ok tt)
          × Up (update_privileges conn user host cur desired w).2
          × ((t : Text)
              → SameSet
                  (privs (update_privileges conn user host cur desired w).2 t)
                  (wanted desired t))
    unfolding update_privileges
    update_privileges-converges cur desired w up plain proper listed_cur listed_desired found =
        let (changed, w₁, e, up₁, holds₁) =
          revoke_surplus-step conn user host Word Object Up privs serves desired cur w up plain in
        let (fine, up₂, holds₂) =
          grant_missing-Granted conn user host Word Object Up privs serves cur desired changed w₁
            up₁ proper in
        rw (update_privileges, e)
          (
            fine,
            up₂,
            λ t a. ground (
              arith,
              holds₁ t a,
              holds₂ t a,
              found t a,
              excess-whole cur desired t a listed_cur,
              excess-whole desired cur t a listed_desired,
            ),
          )
