-- ===== src/Controllers/Jobs/Listed.antt =====
-- A job that was created is found again, by its namespace, its label and its name.
use db_operator.Base.{Text, text_eq, List, [], ◌∷◌, is_some, Bool, false, ◌||◌, ◌≡◌, arith, ap}
use db_operator.Base.Maps.{lookup, store, lookup-store}
use db_operator.Interfaces.Calls.{got}
use db_operator.Controllers.Reconcile.{loaded}
use db_operator.Controllers.Jobs.{
  JobsEnvironment, Holds, controlled_by, map_by_name, get_job_map, find_job,
}

module _ {J : Type 0} (name_of : J → Text) where
  -- whether one of the jobs has the name
  abbrev pub has_named : Text → List J → Bool
  has_named name [] = false
  has_named name (job ∷ jobs) = text_eq (name_of job) name || has_named name jobs

  is_some-store :
      (name k : Text) (job : J) (m : List (Text × J))
      → is_some (lookup name (store k job m)) ≡ (text_eq k name || is_some (lookup name m))
  is_some-store name k job m = ground (arith, lookup-store k name job m)

  map_by_name-has_named :
      (name : Text) (found : List (Text × J)) (jobs : List J)
      → is_some (lookup name (map_by_name name_of found jobs))
        ≡ (is_some (lookup name found) || has_named name jobs)
  unfolding map_by_name
  map_by_name-has_named name found [] = ground arith
  map_by_name-has_named name found (job ∷ jobs) = ground (
    arith,
    map_by_name-has_named name (store (name_of job) job found) jobs,
    is_some-store name (name_of job) job found,
  )

  module _ {E Cr W : Type 0} (env : JobsEnvironment E Cr J) (holds : Holds W E) where
    -- The controller's object exists exactly where one of the listed objects has its name, whichever
    -- of several objects of one name the map keeps.
    pub find_job-has_named :
        (w : W) (jobs : List J)
        → (env.list (holds.namespace w) controlled_by (holds.ext w)).0 ≡ got jobs
        → (find_job env name_of holds w).0 ≡ loaded (has_named (holds.object w).name jobs)
    unfolding find_job get_job_map lookup
    find_job-has_named w jobs h =
        rw h (ap loaded (map_by_name-has_named (holds.object w).name [] jobs))
