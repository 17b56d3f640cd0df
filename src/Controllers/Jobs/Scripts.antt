-- ===== src/Controllers/Jobs/Scripts.antt =====
-- The scripts in the config map, and the jobs that run them.
use db_operator.Base.{
  Text, text_eq_refl, Error, List, [], ◌∷◌, ◌++◌, Option, none, some, true, ◌≡◌, ◌⊎◌, inl, inr,
  refl, arith, Bool-cases, if◌then◌else◌,
}
use db_operator.Base.Maps.{lookup}
use db_operator.Interfaces.Calls.{Reply, got, refused}
use db_operator.Shared.Errors.{is_cannot_find_error}
use db_operator.Shared.Scripts.{scripts_map}
use db_operator.Controllers.Crdb.{option_text_eq}
use db_operator.Controllers.Containers.{scripts_configmap}
use db_operator.Controllers.Jobs.{
  JobsEnvironment, same_entries, data_eq, create_scripts, after_scripts_read, ensure_scripts,
}

option_text_eq_refl : (o : Option Text) → option_text_eq o o ≡ true
option_text_eq_refl none = refl
option_text_eq_refl (some s) = text_eq_refl s

same_entries_refl : (keys m : List (Text × Text)) → same_entries keys m m ≡ true
same_entries_refl [] m = refl
same_entries_refl ((k, v) ∷ keys) m =
    rw (option_text_eq_refl (lookup k m)) (same_entries_refl keys m)

data_eq_refl : (m : List (Text × Text)) → data_eq m m ≡ true
unfolding data_eq
data_eq_refl m = same_entries_refl (m ++ m) m

module _ {E Cr J : Type 0} (env : JobsEnvironment E Cr J)
    (stored : Text → Text → E → Option (List (Text × Text))) where
  -- what the API server does with config maps: `stored` is the data by namespace and name
  pub record ConfigMapLaws : Type 0 where
    pub read :
        (ns name : Text) (e : E) (entries : List (Text × Text))
        → (env.get_config_map ns name e).0 ≡ got entries
        → stored ns name (env.get_config_map ns name e).1 ≡ some entries
    pub accepted :
        (ns name : Text) (entries : List (Text × Text)) (e : E)
        → (env.create_config_map ns name entries e).0 ≡ none
        → stored ns name (env.create_config_map ns name entries e).1 ≡ some entries

  -- the scripts are there, or the creation was refused
  abbrev pub Scripted : Text → Option Error × E → Type 0
  Scripted ns (x, e) =
      (entries : List (Text × Text)) × (stored ns scripts_configmap e ≡ some entries)
      × (data_eq entries scripts_map ≡ true)

  abbrev pub Refused : Text → E → Type 0
  Refused ns e =
      (x : Error) × ((env.create_config_map ns scripts_configmap scripts_map e).0 ≡ some x)

  create_scripts-Scripted :
      ConfigMapLaws
      → (ns : Text) (e : E) (r : Option Error × E)
      → r ≡ env.create_config_map ns scripts_configmap scripts_map e
      → Scripted ns (create_scripts env ns e) ⊎ Refused ns e
  create_scripts-Scripted laws ns e (none, e') h =
      inl (
        scripts_map,
        laws.accepted ns scripts_configmap scripts_map e (cc),
        data_eq_refl scripts_map,
      )
  create_scripts-Scripted laws ns e (some x, e') h = inr (x, cc)

  -- the state in which the scripts are written, if they are
  abbrev pub written : Text → Reply (List (Text × Text)) × E → E
  written ns (got entries, e) = (env.delete_config_map ns scripts_configmap e).1
  written ns (refused x, e) = e

  after_scripts_read-Scripted :
      ConfigMapLaws
      → (ns : Text) (r : Reply (List (Text × Text)) × E)
      → ((entries : List (Text × Text))
          → r.0 ≡ got entries
          → stored ns scripts_configmap r.1 ≡ some entries)
      → (after_scripts_read env ns r).0 ≡ none
      → Scripted ns (after_scripts_read env ns r) ⊎ Refused ns (written ns r)
  after_scripts_read-Scripted laws ns (got entries, e) read h =
      elim (Bool-cases (data_eq entries scripts_map)) [
        | inl same ↦ rw same (inl (entries, read entries refl, same))
        | inr other ↦ rw other (
            create_scripts-Scripted laws ns (env.delete_config_map ns scripts_configmap e).1 _ refl)
      ]
  after_scripts_read-Scripted laws ns (refused x, e) read h =
      elim (Bool-cases (is_cannot_find_error x)) [
        | inl missing ↦ rw missing (create_scripts-Scripted laws ns e _ refl)
        | inr other ↦ absurd (
            let same : (if is_cannot_find_error x then create_scripts env ns e else (some x, e)).0
                ≡ none =
              h in
            ground (arith, same, other))
      ]

  -- With an API server that keeps config maps: where `EnsureScripts` reports no error, the config map
  -- of the namespace has every script of the program and no other entry, or its creation was
  -- refused.
  pub ensure_scripts-Scripted :
      ConfigMapLaws
      → (ns : Text) (e : E) → (ensure_scripts env ns e).0 ≡ none
      → Scripted ns (ensure_scripts env ns e)
        ⊎ Refused ns (written ns (env.get_config_map ns scripts_configmap e))
  unfolding ensure_scripts
  ensure_scripts-Scripted laws ns e h =
      after_scripts_read-Scripted laws ns (env.get_config_map ns scripts_configmap e)
        (laws.read ns scripts_configmap e) h
