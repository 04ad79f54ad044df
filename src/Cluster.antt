-- ===== src/Cluster.antt =====
-- What the operator takes from outside: the Kubernetes client and its machinery as an interface, and
-- the state that one reconciliation works on.
mod Effects
pub mod Yields
pub mod Returns
pub use Effects.*
use horreum_operator.Common.{ℕ, String, Bool, Option}
use horreum_operator.Objects.{ObjectMeta, PodSpec, Kind, Resource, NamespacedName}
use horreum_operator.Crd.{Time, Horreum, HorreumStatus}

-- Every call may find another world than the call before it left, and leaves a world of its own.
pub record Api : Type 1 where
  -- The cluster with all who act on it, the clock and the source of random numbers.
  pub World : Type 0
  pub Error : Type 0
  -- `errors.IsNotFound`
  pub is_not_found : Error → Bool
  -- `errors.New`
  pub new_error : String → Error
  -- `r.Get`, for the custom resource and for each kind of object
  pub get_horreum : NamespacedName → World → Reply Error Horreum × World
  pub get : (k : Kind) → NamespacedName → World → Reply Error (Resource k) × World
  -- `r.Create` and `r.Delete`, with the error if there is one
  pub create : (k : Kind) → Resource k → World → Option Error × World
  pub delete : (k : Kind) → Resource k → World → Option Error × World
  -- `r.Status().Update`, whose error the operator drops
  pub update_status : Horreum → World → World
  -- `controllerutil.SetControllerReference`: the metadata with the owner added
  pub set_controller_reference : Horreum → ObjectMeta → Reply Error ObjectMeta
  -- `equality.Semantic.DeepDerivative` on the specifications of two pods
  pub deep_derivative : PodSpec → PodSpec → Bool
  -- `metav1.Now`, `rand.Seed(time.Now().UnixNano())` and `rand.Intn`
  pub now : World → Time × World
  pub seed : World → World
  pub rand_intn : ℕ → World → ℕ × World
  -- `url.ParseRequestURI`: the host of the URL, or `none` for an error
  pub parse_request_uri : String → Option String

-- `cr.Status` is the one part of the custom resource that a reconciliation writes.
pub record State (api : Api) : Type 0 where
  pub world : api.World
  pub status : HorreumStatus

abbrev pub M : Api → Type 0 → Type 0
M api A = Action (State api) api.Error A

module _ (api : Api) where
  -- A call of the client that reports in a value, and one that reports nothing.
  abbrev pub call : {A : Type 0} → (api.World → A × api.World) → M api A
  call f s = (ok (f s.world).0, record s { world = (f s.world).1 })

  abbrev pub call_unit : (api.World → api.World) → M api (Unit {0})
  call_unit f s = (ok tt, record s { world = f s.world })
