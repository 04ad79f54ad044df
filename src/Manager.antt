-- ===== src/Manager.antt =====
-- `main` of main.go, as far as it sets the reconciler up, and `SetupWithManager` of
-- controllers/horreum_controller.go.
pub mod Setup
pub mod Main
use horreum_operator.Common.{
  String, Bool, true, false, ◌==◌, Option, none, some, List, [], ◌∷◌, ◌++◌, if◌then◌else◌,
  string_eq,
}
use horreum_operator.Objects.{Kind}
use horreum_operator.Crd.{HorreumReconciler}
use horreum_operator.Cluster.{Reply, found, failed}

-- The loop over the API groups, which stops at the group of OpenShift's routes.
unfoldable pub has_route_group : List String → Bool
has_route_group [] = false
has_route_group (name ∷ groups) =
    let rest = has_route_group groups in if name == "route.openshift.io" then true else rest

-- `config` is what `ctrl.GetConfig` returns, `client` makes a discovery client of it, and `groups` is
-- `ServerGroups`. Whatever fails, the cluster is taken for plain Kubernetes.
unfoldable pub detect_routes :
    {E Config Client : Type 0}
    → Option Config
    → (Config → Option Client)
    → (Client → Reply E (List String))
    → Bool
unfolding has_route_group
detect_routes none client groups = false
detect_routes (some config) client groups = elim (client config) [
  | none ↦ false
  | some c ↦ elim (groups c) [ failed _ ↦ false | found names ↦ has_route_group names ]
]

unfoldable pub new_reconciler : Bool → HorreumReconciler
new_reconciler routes_available = record {
  routes_available = routes_available;
  use_red_hat_images = routes_available;
}

-- The kinds whose owned objects start a reconciliation when they change.
unfoldable pub owned_kinds : HorreumReconciler → List Kind
owned_kinds r =
    (Kind.pod ∷ Kind.service ∷ Kind.secret ∷ Kind.config_map ∷ [])
    ++ (if r.routes_available then Kind.route ∷ [] else [])
