-- ===== src/Controllers/Tests/Servers.antt =====
-- A server whose status is stored, with two databases in no order.
use mathlib.Core.List.{Permᴰ}
use db_operator.Base.{Text, codes, List, [], ◌∷◌, none, true, ◌≡◌, refl, ℕ, ◌+◌}
use db_operator.Base.Int.{pos}
use db_operator.Interfaces.Calls.{got}
use db_operator.Shared.Backoff.{no_requeue}
use db_operator.Controllers.Reconcile.{db_operator_finalizer}
use db_operator.Controllers.DbServers.Status.{
  ServerCr, ServerEnvironment, new_status, success, reconcile_server,
}
use db_operator.Controllers.DbServers.Status.Settled.{Answers, reconcile_server-settled}
use db_operator.Controllers.Tests.{finalizer_util, contains-add_one}
use db_operator.Controllers.Tests.Users.{server_in}

abbrev some_dbs : List Text
some_dbs = codes "shop" ∷ codes "app" ∷ []

-- the same databases, as an earlier run has listed them
abbrev dbs_before : List Text
dbs_before = codes "app" ∷ codes "shop" ∷ []

abbrev some_users : List Text
some_users = codes "root" ∷ []

abbrev bare_cr : ServerCr
bare_cr = record {
  object = record {
    name = codes "main";
    creation_timestamp = 0;
    deletion_timestamp = none;
    finalizers = db_operator_finalizer ∷ [];
  };
  spec = server_in (codes "near");
  status = record { connection_available = true; databases = []; users = []; message = [] };
}

-- counts the connections that were closed
abbrev servers_of : ServerCr → ServerEnvironment ℕ (Unit {0})
servers_of cr = record {
  get_server = λ e. (got cr, e);
  connect = λ s e. (got tt, e);
  get_dbs = λ c e. (got some_dbs, e);
  get_users = λ c e. (got some_users, e);
  close = λ c e. e + 1;
  update = λ cr e. (none, e);
  update_status = λ cr e. (none, e);
  since = λ t e. pos 0;
  error_text = λ x. codes "refused";
}

abbrev stored_cr : ServerCr
stored_cr = record bare_cr {
  status =
      new_status ⦃util = finalizer_util⦄ (servers_of bare_cr) dbs_before some_users true
        (success ⦃util = finalizer_util⦄ (servers_of bare_cr));
}

stored-Answers :
    Answers ⦃util = finalizer_util⦄ (servers_of stored_cr) stored_cr tt some_dbs some_users
stored-Answers = record {
  resource = λ e. refl;
  connected = λ e. refl;
  listed_dbs = λ e. refl;
  listed_users = λ e. refl;
}

reconcile_server-settled_example :
    reconcile_server ⦃util = finalizer_util⦄ (servers_of stored_cr) 3 ≡ (no_requeue, 4)
reconcile_server-settled_example =
    reconcile_server-settled ⦃util = finalizer_util⦄ (servers_of stored_cr) stored_cr tt some_dbs
      some_users dbs_before some_users 3 stored-Answers refl
      (contains-add_one [] db_operator_finalizer) (Permᴰ.swap refl refl) (Permᴰ.cons refl Permᴰ.nil)
      refl
