-- ===== src/Controllers/Tests/Schemas.antt =====
-- A schema whose resource has another name.
use db_operator.Base.{
  Text, codes, text_eq, member, text_eq_iff, keep, member-keep, external, List, [], ◌∷◌, none, some,
  true, false, not, ◌≡◌, ◌≢◌, refl, arith,
}
use db_operator.Base.Int.{pos}
use db_operator.Interfaces.Calls.{got, refused}
use db_operator.Controllers.Schema.{SchemaEnvironment, SchemaReco, create_obj, remove_obj}
use db_operator.Controllers.Schema.Names.{NamesLaws, create-remove_other_name}
use db_operator.Controllers.Tests.{finalizer_util}

-- the world is the list of the schemas
abbrev schema_environment : SchemaEnvironment (List Text) (Unit {0})
schema_environment = record {
  get_schema = λ e. (refused (external (codes "gone")), e);
  get_db = λ n e. (got tt, e);
  list_servers = λ e. (got [], e);
  connect = λ s c d e. (got tt, e);
  get_schemas = λ c u e. (got e, e);
  create_schema = λ c n u e. (got tt, n ∷ e);
  drop_schema = λ c n u b e. (got tt, keep (λ x. not (text_eq x n)) e);
  close = λ c e. e;
  update = λ o e. (none, e);
  update_status = λ cr e. (none, e);
  since = λ t e. pos 0;
}

abbrev Has : Text → List Text → Type 0
Has n e = member n e ≡ true

made : (n : Text) (e : List Text) → member n (n ∷ e) ≡ true
unfolding member
made n e = ground (arith, text_eq_iff n n)

kept :
    (n m : Text) (e : List Text)
    → n ≢ m
    → member m e ≡ true
    → member m (keep (λ x. not (text_eq x n)) e) ≡ true
kept n m e other h =
    ground (arith, member-keep (λ x. not (text_eq x n)) m e, text_eq_iff m n, other, h)

schema_environment-NamesLaws : NamesLaws schema_environment Has
schema_environment-NamesLaws = record {
  creates = λ c n u e fine. made n e;
  drops_no_other = λ c n m u b e other h. kept n m e other h;
  status_keeps = λ cr n e h. h;
}

abbrev orders : SchemaReco (List Text) (Unit {0})
orders = record {
  cr = record {
    object = record {
      name = codes "orders-schema";
      creation_timestamp = 0;
      deletion_timestamp = none;
      finalizers = [];
    };
    namespace = codes "near";
    server = codes "main";
    db_name = codes "shop";
    schema_name = codes "orders";
    drop_on_deletion = true;
    cascade_on_drop = false;
    creator = none;
    created = false;
  };
  conn = some tt;
  ext = [];
}

create-remove_other_name_example :
    Has
      (codes "orders")
      (remove_obj ⦃util = finalizer_util⦄ schema_environment
        (create_obj ⦃util = finalizer_util⦄ schema_environment orders).2).2.ext
create-remove_other_name_example =
    create-remove_other_name ⦃util = finalizer_util⦄ schema_environment Has
      schema_environment-NamesLaws orders (λ e. cc) (unfold create_obj in refl)
