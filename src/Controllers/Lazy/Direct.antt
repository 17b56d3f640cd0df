-- ===== src/Controllers/Lazy/Direct.antt =====
-- What a new helper reads for a job, and in which order.
use db_operator.Base.{
  Result-cases, inr, Bool-cases, Error, inl, Text, codes, text_eq, to_lower, Result, ok, err, panic,
  unsupported, some, ◌≡◌, refl, if◌then◌else◌,
}
use db_operator.Base.Exec.{Exec, pure, raise, lift, ◌>>=◌}
use db_operator.Controllers.Containers.{DbActions, S3Storage, get_server_actions}
use db_operator.Controllers.DbServers.{DbServer, get_db_server}
use db_operator.Controllers.Db.{DbCr}
use db_operator.Controllers.Lazy.{
  Target, LazyEnvironment, LazyTarget, new_lazy_target, memo, get_target, get_storage_helper,
  get_storage_actions, get_lazy_db_helper, get_db, get_server_helper, get_helped_server,
  get_db_server_of, get_actions, get_storage_info_and_actions,
}

module _ {E Conn : Type 0} (env : LazyEnvironment E Conn) where
  abbrev read_storage : Text → Target → Exec E S3Storage
  read_storage namespace target =
      if text_eq (to_lower target.storage_type) (codes "s3")
      then env.get_s3_storage namespace target.storage_location
      else raise unsupported

  abbrev read_server : Text → DbCr → Exec E DbServer
  read_server namespace db =
      env.list_servers >>= λ servers. lift (get_db_server db.server namespace servers)

  abbrev read_actions : Text → S3Storage → Text → Exec E (S3Storage × DbActions)
  read_actions namespace storage db_name = do
    db ← env.get_db namespace db_name
    server ← read_server namespace db
    actions ← lift (get_server_actions server db)
    pure (storage, actions)

  -- every object read once
  abbrev pub read_all : Text → Text → Exec E (S3Storage × DbActions)
  read_all namespace name = do
    target ← env.get_target namespace name
    storage ← read_storage namespace target
    read_actions namespace storage target.db_name

  -- the answer, and the world that the helper leaves
  abbrev pub seen : {A : Type 0} → Result A × LazyTarget E Conn → Result A × E
  seen (r, w) = (r, w.ext)

  -- a helper that has its target and its storage
  abbrev half_way : Text → Text → Target → S3Storage → E → LazyTarget E Conn
  half_way namespace name target storage e = record (new_lazy_target namespace name e) {
    target = some target;
    storage_helper = some (target.storage_type, target.storage_location);
    storage_actions = some storage;
  }

  -- a helper that has all that a job needs
  abbrev pub filled : Text → Text → Target → S3Storage → DbCr → DbServer → E → LazyTarget E Conn
  filled namespace name target storage db server e =
      record (half_way namespace name target storage e) {
        db_helper = some target.db_name;
        db = some db;
        server_helper = some db.server;
        server = some server;
      }

  -- a relation of the two ways that holds where both fail, and where both have read everything
  module _ {ℓ}
      (Related : Result (S3Storage × DbActions) × LazyTarget E Conn
        → Result (S3Storage × DbActions) × E
        → Type ℓ)
      (fails : (x : Error) (w : LazyTarget E Conn) → Related (err x, w) (err x, w.ext))
      (panics : (w : LazyTarget E Conn) → Related (panic, w) (panic, w.ext))
      (ends : (namespace name : Text) (t : Target) (s : S3Storage) (db : DbCr) (server : DbServer)
          (actions : DbActions) (e : E)
        → get_server_actions server db ≡ ok actions
        → Related
            (ok (s, actions), filled namespace name t s db server e)
            (ok (s, actions), e)) where
    read_actions-Related :
        (namespace name : Text) (t : Target) (s : S3Storage) (e : E)
        → Related
            ((get_actions env >>= λ actions. pure (s, actions)) (half_way namespace name t s e))
            (read_actions namespace s t.db_name e)
    unfolding get_target get_actions get_lazy_db_helper get_db get_db_server_of get_server_helper
        get_helped_server memo
    read_actions-Related namespace name t s e =
        elim (Result-cases (env.get_db namespace t.db_name e).0) [
          | inl (db, h) ↦
              let e1 : E = (env.get_db namespace t.db_name e).1 in
              elim (Result-cases (env.list_servers e1).0) [
                | inl (servers, h') ↦
                    elim (Result-cases (get_db_server db.server namespace servers)) [
                      | inl (server, h'') ↦ elim (Result-cases (get_server_actions server db)) [
                        | inl (actions, g) ↦
                            rw (h, h', h'', g) (ends namespace name t s db server actions _ g)
                        | inr bad ↦ elim bad [
                          | inl (x, b) ↦ rw (h, h', h'', b) (fails x _)
                          | inr b ↦ rw (h, h', h'', b) (panics _)
                        ]
                      ]
                      | inr bad ↦ elim bad [
                        | inl (x, b) ↦ rw (h, h', b) (fails x _)
                        | inr b ↦ rw (h, h', b) (panics _)
                      ]
                    ]
                | inr bad ↦ elim bad [
                  | inl (x, b) ↦ rw (h, b) (fails x _)
                  | inr b ↦ rw (h, b) (panics _)
                ]
              ]
          | inr bad ↦ elim bad [ inl (x, b) ↦ rw b (fails x _) | inr b ↦ rw b (panics _) ]
        ]

    pub read_all-Related :
        (namespace name : Text) (e : E)
        → Related
            (get_storage_info_and_actions env (new_lazy_target namespace name e))
            (read_all namespace name e)
    unfolding get_storage_info_and_actions get_storage_actions get_storage_helper get_target
        get_actions get_lazy_db_helper get_db get_db_server_of get_server_helper get_helped_server
        memo
    read_all-Related namespace name e =
        let e1 : E = (env.get_target namespace name e).1 in
        elim (Result-cases (env.get_target namespace name e).0) [
          | inl (t, h) ↦ elim (Bool-cases (text_eq (to_lower t.storage_type) (codes "s3"))) [
            | inl s3 ↦ elim (Result-cases (env.get_s3_storage namespace t.storage_location e1).0) [
              | inl (s, h') ↦ rw (h, s3, h') (read_actions-Related namespace name t s _)
              | inr bad ↦ elim bad [
                | inl (x, b) ↦ rw (h, s3, b) (fails x _)
                | inr b ↦ rw (h, s3, b) (panics _)
              ]
            ]
            | inr other ↦ rw (h, other) (fails unsupported _)
          ]
          | inr bad ↦ elim bad [ inl (x, b) ↦ rw b (fails x _) | inr b ↦ rw b (panics _) ]
        ]

  -- Until the first answer that is no value, a new helper reads for a job what the direct chain of
  -- reads does, in the same order: the target once, its storage, its database, the servers.
  pub read_all-seen :
      (namespace name : Text) (e : E)
      → seen (get_storage_info_and_actions env (new_lazy_target namespace name e))
        ≡ read_all namespace name e
  read_all-seen =
      read_all-Related (λ p q. seen p ≡ q) (λ x w. refl) (λ w. refl)
        (λ namespace name t s db server actions e h. refl)
