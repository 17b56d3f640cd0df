-- ===== src/Controllers/Lazy/Kept.antt =====
-- What a helper has read it does not read again.
use db_operator.Base.{Text, Result, ok, ◌≡◌, refl}
use db_operator.Controllers.Containers.{DbActions, S3Storage, get_server_actions}
use db_operator.Controllers.DbServers.{DbServer}
use db_operator.Controllers.Db.{DbCr}
use db_operator.Controllers.Lazy.{
  Target, LazyEnvironment, LazyTarget, new_lazy_target, memo, get_target, get_storage_helper,
  get_storage_actions, get_lazy_db_helper, get_db, get_server_helper, get_helped_server,
  get_db_server_of, get_actions, get_storage_info_and_actions,
}
use db_operator.Controllers.Lazy.Direct.{filled, read_all-Related}

module _ {E Conn : Type 0} (env : LazyEnvironment E Conn) where
  filled-again :
      (namespace name : Text) (t : Target) (s : S3Storage) (db : DbCr) (server : DbServer)
      (actions : DbActions) (e : E)
      → get_server_actions server db ≡ ok actions
      → get_storage_info_and_actions env (filled env namespace name t s db server e)
        ≡ (ok (s, actions), filled env namespace name t s db server e)
  unfolding get_storage_info_and_actions get_storage_actions get_storage_helper get_target
      get_actions get_lazy_db_helper get_db get_db_server_of get_server_helper get_helped_server
      memo
  filled-again namespace name t s db server actions e h = rw h refl

  -- the answer is there at once, and nothing changes
  abbrev pub Again : Result (S3Storage × DbActions) × LazyTarget E Conn → Type 0
  Again (r, w) =
      (found : S3Storage × DbActions)
      → r ≡ ok found
      → get_storage_info_and_actions env w ≡ (ok found, w)

  -- Once a new helper has answered with storage and actions, it answers the same again, with no read
  -- of the rest of the world and no change of its own.
  pub get_storage_info_and_actions-again :
      (namespace name : Text) (e : E) (found : S3Storage × DbActions)
      → (get_storage_info_and_actions env (new_lazy_target namespace name e)).0 ≡ ok found
      → get_storage_info_and_actions env
          (get_storage_info_and_actions env (new_lazy_target namespace name e)).1
        ≡ (ok found, (get_storage_info_and_actions env (new_lazy_target namespace name e)).1)
  get_storage_info_and_actions-again namespace name e =
      read_all-Related env (λ p q. Again p) (λ x w found h. cc) (λ w found h. cc)
        (λ namespace name t s db server actions e h found same.
          cc (same, filled-again namespace name t s db server actions e h))
        namespace name e
