-- ===== src/Controllers/User/Removal.antt =====
-- When a user is dropped, and when one can be created.
use db_operator.Base.{Error, some, none, is_empty, ok, err, panic, true, false, ◌≡◌, ◌⊎◌, refl}
use db_operator.Controllers.DbServers.{DbServer}
use db_operator.Controllers.Credentials.{any_key, get_user_credentials}
use db_operator.Controllers.User.{
  find_server, ServerConnection, UserCr, Environment, create_with, create_obj,
}

module _ {W : Type 0} (env : Environment W) (user : UserCr) where
  -- What is sent to the server's controller, and when: the server of the specification, found in the
  -- list of the servers, or nil when it cannot be found. Only a panic of the search sends nothing.
  abbrev pub Notified : W → W → Type 0
  Notified w w' =
      (w₁ : W) × (((server : DbServer) × (find_server env user w ≡ (ok server, w₁))
          × (w' ≡ env.trigger (some server) w₁))
        ⊎ ((e : Error) × (find_server env user w ≡ (err e, w₁)) × (w' ≡ env.trigger none w₁))
        ⊎ ((find_server env user w ≡ (panic, w₁)) × (w' ≡ w₁)))

  -- A user without a secret, for whom none is generated, cannot be created: the creation ends in a
  -- panic before the server is asked.
  pub create_obj-no_secret :
      (conn : ServerConnection W) (w : W)
      → user.spec.generate_secret ≡ false
      → is_empty user.spec.secret_name ≡ true
      → any_key user.spec ≡ false
      → create_obj env user conn w ≡ (panic, w)
  unfolding create_obj get_user_credentials create_with
  create_obj-no_secret conn w no_secret blank no_key = simp (no_secret, blank, no_key) refl
