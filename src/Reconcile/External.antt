-- ===== src/Reconcile/External.antt =====
-- Keycloak at an external address: what was deployed before is removed.
use horreum_operator.Common.{◌<>◌, ◌≡◌, true, string_eq}
use horreum_operator.Objects.{Kind, NamespacedName, key_of, Route}
use horreum_operator.Crd.{Horreum, HorreumReconciler}
use horreum_operator.Cluster.{Api}
use horreum_operator.Status.Truthful.{Observation, IsQuiet}
use horreum_operator.Status.Keyed.{IsKeyed, IsElsewhere}
use horreum_operator.Ensure.Leaves.{Server, IsStore, Leaves, IsMissing}

-- The name of the pod and of the service of Keycloak.
abbrev pub keycloak_key : Horreum → NamespacedName
keycloak_key cr = record {
  namespace = cr.metadata.namespace;
  name = cr.metadata.name <> "-keycloak";
}

-- The pod and the service of Keycloak are not there, nor is its route where there are routes, and
-- nothing else has changed.
abbrev pub IsWithoutKeycloak :
    (api : Api) → HorreumReconciler → Horreum → Route → Observation api → Observation api → Type 0
IsWithoutKeycloak api r cr route o o' =
    IsMissing api o' Kind.pod (keycloak_key cr)
    × IsMissing api o' Kind.service (keycloak_key cr)
    × (r.routes_available ≡ true → IsMissing api o' Kind.route (key_of route.metadata))
    × ((j : Kind) (other : NamespacedName)
        → IsElsewhere Kind.pod (keycloak_key cr) j other
        → IsElsewhere Kind.service (keycloak_key cr) j other
        → (r.routes_available ≡ true → IsElsewhere Kind.route (key_of route.metadata) j other)
        → o' j other ≡ o j other)

module _ (api : Api) (server : Server) (r : HorreumReconciler) (cr : Horreum) (quiet : IsQuiet api)
    (keyed : IsKeyed api) (store : IsStore api server) (route : Route) where
  -- The route is not there if there are routes, and nothing else has changed.
  abbrev IsWithoutRoute : Observation api → Observation api → Type 0
  IsWithoutRoute o o' =
      (r.routes_available ≡ true → IsMissing api o' Kind.route (key_of route.metadata))
      × ((j : Kind) (other : NamespacedName)
          → (r.routes_available ≡ true → IsElsewhere Kind.route (key_of route.metadata) j other)
          → o' j other ≡ o j other)
