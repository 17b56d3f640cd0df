-- ===== src/Controllers/DbServers/Status/Settled.antt =====
-- A server whose status is stored.
use mathlib.Core.List.{Permᴰ}
use db_operator.Base.Sorting.{sort_texts-perm}
use db_operator.Base.{
  sym, subst, Text, text_eq_refl, List, [], ◌∷◌, none, Bool, true, false, ◌≡◌, refl,
}
use db_operator.Interfaces.Calls.{got}
use db_operator.Interfaces.Kubernetes.{ControllerUtil}
use db_operator.Shared.Backoff.{no_requeue}
use db_operator.Controllers.Reconcile.{db_operator_finalizer}
use db_operator.Controllers.DbServers.Status.{
  ServerStatus, ServerCr, ServerEnvironment, texts_eq, bool_eq, server_status_eq, new_status,
  set_status, success, after_users, after_dbs, after_connect, after_get, reconcile_server,
}

texts_eq_refl : (xs : List Text) → texts_eq xs xs ≡ true
texts_eq_refl [] = refl
texts_eq_refl (x ∷ xs) = rw (text_eq_refl x) (texts_eq_refl xs)

bool_eq_refl : (b : Bool) → bool_eq b b ≡ true
bool_eq_refl true = refl
bool_eq_refl false = refl

server_status_eq_refl : (s : ServerStatus) → server_status_eq s s ≡ true
unfolding server_status_eq
server_status_eq_refl s =
    rw (bool_eq_refl s.connection_available, texts_eq_refl s.databases, texts_eq_refl s.users)
      (text_eq_refl s.message)

module _ ⦃util : ControllerUtil⦄ {E Conn : Type 0} (env : ServerEnvironment E Conn) where
  set_status-same :
      (cr : ServerCr) (e : E)
      → util.contains_finalizer cr.object db_operator_finalizer ≡ true
      → set_status env cr cr.status e ≡ (none, e)
  unfolding set_status
  set_status-same cr e has = rw (has, server_status_eq_refl cr.status) refl

  -- a server that is connected to, and answers the same in every state
  pub record Answers (cr : ServerCr) (conn : Conn) (databases users : List Text) : Type 0 where
    pub resource : (e : E) → env.get_server e ≡ (got cr, e)
    pub connected : (e : E) → env.connect cr.spec e ≡ (got conn, e)
    pub listed_dbs : (e : E) → env.get_dbs conn e ≡ (got databases, e)
    pub listed_users : (e : E) → env.get_users conn e ≡ (got users, e)

  -- For a server that stays and answers, whose resource has the finalizer, and the status of an
  -- earlier run that listed the same databases and the same users, in any order: a reconciliation
  -- updates nothing, closes its connection, and asks for no other run.
  pub reconcile_server-settled :
      (cr : ServerCr) (conn : Conn) (databases users databases' users' : List Text) (e : E)
      → Answers cr conn databases users
      → cr.object.deletion_timestamp ≡ none
      → util.contains_finalizer cr.object db_operator_finalizer ≡ true
      → Permᴰ databases' databases
      → Permᴰ users' users
      → cr.status ≡ new_status env databases' users' true (success env)
      → reconcile_server env e ≡ (no_requeue, env.close conn e)
  unfolding reconcile_server after_get after_connect after_dbs after_users
  reconcile_server-settled cr conn databases users databases' users' e answers stays has
        same_databases same_users stored =
      let status : cr.status ≡ new_status env databases users true (success env) =
        rw (sym (sort_texts-perm same_databases), sym (sort_texts-perm same_users)) stored in
      let same : set_status env cr (new_status env databases users true (success env)) e
          ≡ (none, e) =
        subst (λ s. set_status env cr s e ≡ (none, e)) status (set_status-same cr e has) in
      rw
        (
          answers.resource e,
          answers.connected e,
          answers.listed_dbs e,
          answers.listed_users e,
          same,
          stays,
        )
        refl
