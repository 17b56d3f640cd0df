-- ===== src/MySql/Unpack/Objects.antt =====
-- The objects of the map that `privilegesUnpack` builds.
use db_operator.Base.{
  All, Text, Result, ok, err, panic, List, [], ◌∷◌, Option, none, some, is_some, true, ◌≡◌, refl,
  arith, ◌>>=◌, codes, text_eq_iff,
}
use db_operator.Base.Maps.{
  lookup, store, lookup-store, Distinct, store-Distinct, Listed, Distinct-Listed,
}
use db_operator.Interfaces.Funk.{Funk}
use db_operator.Api.{DbPriv}
use db_operator.MySql.Unpack.{
  add_usage, PrivMap, all_objects, unpack_item, unpack_items, privileges_unpack, with_usage,
  mode_quote,
}

module _ ⦃funk : Funk⦄ where
  unpack_items-Distinct :
      (quote : Text) (items : List DbPriv) (output m : PrivMap)
      → Distinct output
      → unpack_items quote items output ≡ ok m
      → Distinct m
  unfolding unpack_items
  unpack_items-Distinct quote [] output m distinct h =
      let same : output ≡ m = ground (arith, h) in rw same at distinct
  unpack_items-Distinct quote (item ∷ items) output m distinct h =
      go (unpack_item quote item) h (λ scope privs f.
        unpack_items-Distinct quote items (store scope privs output) m
          (store-Distinct scope privs output distinct) f)
    where
      go :
          (r : Result (Text × List Text))
          → (r >>= λ x. unpack_items quote items (store x.0 x.1 output)) ≡ ok m
          → ((scope : Text) (privs : List Text)
              → unpack_items quote items (store scope privs output) ≡ ok m
              → Distinct m)
          → Distinct m
      go (ok (scope, privs)) f recur = recur scope privs f
      go (err x) f recur = cc
      go panic f recur = cc

  add_usage-Distinct :
      (o : Option (List Text)) (m : PrivMap) → Distinct m → Distinct (add_usage o m)
  add_usage-Distinct none m distinct = store-Distinct all_objects (codes "USAGE" ∷ []) m distinct
  add_usage-Distinct (some _) m distinct = distinct

  with_usage-all : (m : PrivMap) → is_some (lookup all_objects (with_usage m)) ≡ true
  with_usage-all m = ground (
    arith,
    lookup-store all_objects all_objects (codes "USAGE" ∷ []) m,
    text_eq_iff all_objects all_objects,
  )

  -- The desired privileges have one entry for each object, and always an entry for `*.*`.
  pub privileges_unpack-Listed :
      (db_privs : List DbPriv) (mode : Text) (m : PrivMap)
      → privileges_unpack db_privs mode ≡ ok m
      → All (Listed m) m × (is_some (lookup all_objects m) ≡ true)
  unfolding privileges_unpack
  privileges_unpack-Listed db_privs mode m h =
      go (unpack_items (mode_quote mode) db_privs []) refl h
    where
      go :
          (r : Result PrivMap)
          → unpack_items (mode_quote mode) db_privs [] ≡ r
          → (r >>= λ output. ok (with_usage output)) ≡ ok m
          → All (Listed m) m × (is_some (lookup all_objects m) ≡ true)
      go (ok output) e f =
          let same : with_usage output ≡ m = ground (arith, f) in
          let distinct =
            add_usage-Distinct (lookup all_objects output) output
              (unpack_items-Distinct (mode_quote mode) db_privs [] output tt e) in
          (
            rw same at (Distinct-Listed (with_usage output) distinct),
            rw same at (with_usage-all output),
          )
      go (err x) e f = cc
      go panic e f = cc
