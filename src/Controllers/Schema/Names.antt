-- ===== src/Controllers/Schema/Names.antt =====
-- Which schema a resource creates, and which it drops.
use db_operator.Base.{
  not, Text, Option, none, some, Bool, true, false, Bool-cases, sym, subst, ◌∙◌, ◌≡◌, ◌≢◌, inl, inr,
  refl, if◌then◌else◌,
}
use db_operator.Interfaces.Calls.{Reply, got, refused}
use db_operator.Interfaces.Kubernetes.{ControllerUtil}
use db_operator.Shared.Backoff.{no_requeue, gradual_backoff_retry}
use db_operator.Controllers.Reconcile.{went_well}
use db_operator.Controllers.Schema.{
  SchemaCr, SchemaEnvironment, SchemaReco, set_status, mark_created, after_create, create_through,
  create_obj, after_drop, drop_through, remove_obj,
}

-- A server that makes and drops the schema of the name it is given, and no other. `Present` says that
-- there is a schema of a name.
pub record NamesLaws {E Conn : Type 0} (env : SchemaEnvironment E Conn)
    (Present : Text → E → Type 0) : Type 0 where
  pub creates :
      (c : Conn) (n : Text) (u : Option Text) (e : E)
      → (env.create_schema c n u e).0 ≡ got tt
      → Present n (env.create_schema c n u e).1
  pub drops_no_other :
      (c : Conn) (n m : Text) (u : Option Text) (b : Bool) (e : E)
      → n ≢ m
      → Present m e
      → Present m (env.drop_schema c n u b e).1
  pub status_keeps :
      (cr : SchemaCr) (n : Text) (e : E) → Present n e → Present n (env.update_status cr e).1

module _ ⦃util : ControllerUtil⦄ {E Conn : Type 0} (env : SchemaEnvironment E Conn)
    (Present : Text → E → Type 0) (laws : NamesLaws env Present) where
  set_status-Present :
      (b : Bool) (w : SchemaReco E Conn) (n : Text)
      → Present n w.ext
      → Present n (set_status env b w).ext
  unfolding set_status
  set_status-Present b w n here = elim (Bool-cases (if b then w.cr.created else not w.cr.created)) [
    | inl same ↦ rw same here
    | inr new ↦ rw new (laws.status_keeps (record w.cr { created = b }) n w.ext here)
  ]

  mark_created-Present :
      (w : SchemaReco E Conn) (n : Text) → Present n w.ext → Present n (mark_created env w).ext
  unfolding mark_created
  mark_created-Present w n here = elim (Bool-cases (not w.cr.created)) [
    | inl new ↦ rw new (set_status-Present true w n here)
    | inr old ↦ rw old here
  ]

  after_create-Present :
      (w : SchemaReco E Conn) (r : Reply (Unit {0}) × E)
      → (r.0 ≡ got tt → Present w.cr.schema_name r.1)
      → went_well (after_create env w r).0 (after_create env w r).1 ≡ true
      → Present w.cr.schema_name (after_create env w r).2.ext
  unfolding gradual_backoff_retry after_create
  after_create-Present w (got _, e) made well =
      mark_created-Present (record w { ext = e }) w.cr.schema_name (made refl)
  after_create-Present w (refused x, e) made well = cc

  -- a creation that went well has made the schema of the specification
  create_through-Present :
      (conn : Option Conn) (w : SchemaReco E Conn)
      → went_well (create_through env conn w).0 (create_through env conn w).1 ≡ true
      → Present w.cr.schema_name (create_through env conn w).2.ext
  unfolding gradual_backoff_retry create_through
  create_through-Present none w well = cc
  create_through-Present (some conn) w well =
      after_create-Present w (env.create_schema conn w.cr.schema_name w.cr.creator w.ext)
        (laws.creates conn w.cr.schema_name w.cr.creator w.ext) well

  after_drop-ext :
      (w : SchemaReco E Conn) (r : Reply (Unit {0}) × E) → (after_drop env w r).2.ext ≡ r.1
  after_drop-ext w (got _, e) = refl
  after_drop-ext w (refused x, e) = refl

  removal-Present :
      (drop : Bool) (conn : Option Conn) (w : SchemaReco E Conn)
      → w.cr.object.name ≢ w.cr.schema_name
      → Present w.cr.schema_name w.ext
      → Present w.cr.schema_name
          (if drop then drop_through env conn w else (no_requeue, none, w)).2.ext
  removal-Present false conn w other here = here
  removal-Present true none w other here = here
  removal-Present true (some conn) w other here =
      let name = w.cr.object.name in
      rw (after_drop-ext w (env.drop_schema conn name w.cr.creator w.cr.cascade_on_drop w.ext)) (
        laws.drops_no_other conn name w.cr.schema_name w.cr.creator w.cr.cascade_on_drop w.ext other
          here)

  -- the names that a resource has
  SameNames : SchemaReco E Conn → SchemaReco E Conn → Type 0
  SameNames v w = (v.cr.object.name ≡ w.cr.object.name) × (v.cr.schema_name ≡ w.cr.schema_name)

  mark_created-SameNames : (w : SchemaReco E Conn) → SameNames (mark_created env w) w
  unfolding SameNames mark_created set_status
  mark_created-SameNames w = elim (Bool-cases w.cr.created) [
    | inl old ↦ simp old (refl, refl)
    | inr new ↦ simp new (refl, refl)
  ]

  create_through-SameNames :
      (conn : Option Conn) (w : SchemaReco E Conn) → SameNames (create_through env conn w).2 w
  unfolding SameNames create_through
  create_through-SameNames none w = (refl, refl)
  create_through-SameNames (some conn) w =
      go (env.create_schema conn w.cr.schema_name w.cr.creator w.ext)
    where
      go : (r : Reply (Unit {0}) × E) → SameNames (after_create env w r).2 w
      go (got _, e) = mark_created-SameNames (record w { ext = e })
      go (refused x, e) = (refl, refl)

  -- When a resource has another name than the schema that it describes, a schema that it has created
  -- is still on the server after its removal, whatever the specification wants and the server
  -- answers: what is dropped is the schema of the name of the resource.
  pub create-remove_other_name :
      (w : SchemaReco E Conn)
      → w.cr.object.name ≢ w.cr.schema_name
      → went_well (create_obj env w).0 (create_obj env w).1 ≡ true
      → Present w.cr.schema_name (remove_obj env (create_obj env w).2).2.ext
  unfolding create_obj remove_obj SameNames
  create-remove_other_name w other well =
      let v = (create_through env w.conn w).2 in
      let (same_name, same_schema) = create_through-SameNames w.conn w in
      let differ : v.cr.object.name ≢ v.cr.schema_name =
        λ e. other (sym same_name ∙ e ∙ same_schema) in
      subst (λ n. Present n (remove_obj env v).2.ext) same_schema
        (removal-Present v.cr.drop_on_deletion v.conn v differ
          (subst (λ n. Present n v.ext) (sym same_schema) (create_through-Present w.conn w well)))
