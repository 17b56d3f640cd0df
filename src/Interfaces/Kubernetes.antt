-- ===== src/Interfaces/Kubernetes.antt =====
-- What the controllers call of Kubernetes: finalizers of sigs.k8s.io/controller-runtime, the update of
-- an object through the API server, and the clock.
use db_operator.Base.{Text, Error, List, Option, ℕ, Bool, true, false, ◌≡◌}
use db_operator.Base.Int.{ℤ}

-- `client.Object`, as far as the controllers read it
pub record Object : Type 0 where
  pub name : Text
  pub creation_timestamp : ℕ
  pub deletion_timestamp : Option ℕ
  pub finalizers : List Text

-- `controllerutil`
pub record ControllerUtil : Type 0 where
  pub contains_finalizer : Object → Text → Bool
  pub add_finalizer : Object → Text → Object
  pub remove_finalizer : Object → Text → Object
  pub contains-add : (o : Object) (f : Text) → contains_finalizer (add_finalizer o f) f ≡ true
  pub contains-remove :
      (o : Object) (f : Text) → contains_finalizer (remove_finalizer o f) f ≡ false

-- the API server and the clock, over a world
pub record Cluster (W : Type 0) : Type 0 where
  -- `Client.Update(ctx, obj)`
  pub update : Object → W → Option Error × W
  -- `time.Since(t)` in nanoseconds
  pub since : ℕ → W → ℤ
