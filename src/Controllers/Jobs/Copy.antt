-- ===== src/Controllers/Jobs/Copy.antt =====
-- `DbCopyJobReco` of controllers/dbcopyjob_controller.go, and how it finds the two databases: `GetDb`,
-- `GetDbServerFromDbName` and `GetServerActionsFromDbName` of controllers/reconcilable.go.
use db_operator.Base.{Text, Result, ok, List, [], ◌∷◌, none, some}
use db_operator.Base.Exec.{Exec, lift, ◌>>=◌}
use db_operator.Interfaces.Calls.{Reply, got, refused}
use db_operator.Interfaces.Kubernetes.{Object, Cluster}
use db_operator.Shared.Backoff.{no_requeue}
use db_operator.Controllers.DbServers.{DbServer, get_db_server}
use db_operator.Controllers.Db.{DbCr}
use db_operator.Controllers.Containers.{
  DbActions, get_server_actions, build_backup_container, build_restore_container,
}
use db_operator.Controllers.Reconcile.{Answer, Loaded, Reconcilable}
use db_operator.Controllers.Jobs.{
  Job, JobsEnvironment, Holds, back_off, find_job, after_create, delete_job, with_scripts,
  build_job,
}

-- the databases of a namespace, and the servers
pub record Databases (E : Type 0) : Type 0 where
  pub get_db : Text → Text → Exec E DbCr
  pub list_servers : Exec E (List DbServer)

module _ {E : Type 0} (databases : Databases E) where
  unfoldable pub get_db_server_from_db_name : Text → Text → Exec E (DbCr × DbServer)
  get_db_server_from_db_name namespace db_name = do
    db ← databases.get_db namespace db_name
    servers ← databases.list_servers
    server ← lift (get_db_server db.server namespace servers)
    lift (ok (db, server))

  unfoldable pub get_server_actions_from_db_name : Text → Text → Exec E DbActions
  unfolding get_db_server_from_db_name
  get_server_actions_from_db_name namespace db_name =
      get_db_server_from_db_name namespace db_name >>= λ (db, server).
      lift (get_server_actions server db)

  -- the actions of both databases
  abbrev pub both_actions : Text → Text → Text → Exec E (DbActions × DbActions)
  unfolding get_server_actions_from_db_name
  both_actions namespace from_db_name to_db_name = do
    from_actions ← get_server_actions_from_db_name namespace from_db_name
    to_actions ← get_server_actions_from_db_name namespace to_db_name
    lift (ok (from_actions, to_actions))

-- the resource, with `DbCopyJobSpec`
pub record CopyJobCr : Type 0 where
  pub object : Object
  pub from_db_name : Text
  pub to_db_name : Text
  pub service_account : Text

pub record CopyJobReco (E : Type 0) : Type 0 where
  pub namespace : Text
  pub cr : CopyJobCr
  pub ext : E

module _ {E : Type 0} where
  abbrev pub copy_holds : Holds (CopyJobReco E) E
  copy_holds = record {
    ext = λ w. w.ext;
    set_ext = λ e w. record w { ext = e };
    object = λ w. w.cr.object;
    namespace = λ w. w.namespace;
  }

module _ {E : Type 0} (env : JobsEnvironment E CopyJobCr Job) (databases : Databases E) where
  unfoldable pub load_obj : CopyJobReco E → Loaded × CopyJobReco E
  unfolding find_job
  load_obj = find_job env (λ job. job.name) copy_holds

  unfoldable pub copy_job : CopyJobReco E → DbActions → DbActions → Job
  unfolding build_job build_backup_container build_restore_container
  copy_job w from_actions to_actions =
      build_job w.namespace (build_backup_container from_actions ∷ [])
        (build_restore_container to_actions) w.cr.object.name w.cr.service_account

  unfoldable pub create_with :
      CopyJobReco E → Result (DbActions × DbActions) × E → Answer (CopyJobReco E)
  unfolding copy_job
  create_with w (ok (from_actions, to_actions), e) =
      after_create env (λ job. job.name) copy_holds (record w { ext = e })
        (env.create (copy_job w from_actions to_actions) e)
  create_with w (_, e) = back_off env (λ job. job.name) copy_holds (record w { ext = e })

  unfoldable pub create_obj : CopyJobReco E → Answer (CopyJobReco E)
  unfolding build_job build_backup_container build_restore_container get_server_actions_from_db_name
  create_obj =
      with_scripts env (λ job. job.name) copy_holds
        (λ w.
          create_with w
            (both_actions databases w.namespace w.cr.from_db_name w.cr.to_db_name w.ext))

  unfoldable pub remove_obj : CopyJobReco E → Answer (CopyJobReco E)
  unfolding delete_job
  remove_obj = delete_job env (λ job. job.name) copy_holds

  abbrev after_get : CopyJobReco E → Reply CopyJobCr × E → Answer (CopyJobReco E)
  after_get w (got cr, e) = (no_requeue, none, record w { cr = cr; ext = e })
  after_get w (refused x, e) = (no_requeue, some x, record w { ext = e })

  unfoldable pub load_cr : CopyJobReco E → Answer (CopyJobReco E)
  load_cr w = after_get w (env.get_cr w.ext)

  abbrev pub copy_cluster : Cluster (CopyJobReco E)
  copy_cluster = record {
    update = λ o w. ((env.update o w.ext).0, record w { ext = (env.update o w.ext).1 });
    since = λ t w. env.since t w.ext;
  }

  -- `EnsureCorrect` and `CleanupConn` do nothing
  abbrev pub copy_reconcilable : Reconcilable (CopyJobReco E)
  copy_reconcilable = record {
    create_obj = create_obj;
    remove_obj = remove_obj;
    load_cr = load_cr;
    load_obj = load_obj;
    ensure_correct = λ w. (no_requeue, none, w);
    get_cr = λ w. w.cr.object;
    set_cr = λ o w. record w { cr = record w.cr { object = o } };
    cleanup_conn = λ w. w;
  }
