-- ===== src/Manager/Setup.antt =====
-- What the start of the program decides.
use horreum_operator.Common.{
  String, ◌≡◌, refl, ◌↔◌, true, Option, none, some, List, [], ◌∷◌, contains, Option-cases, inl, inr,
  arith, string_eq, eq_iff,
}
use horreum_operator.Cluster.{Reply, Reply-cases, found}
use horreum_operator.Manager.{has_route_group, detect_routes}

has_route_group-eq-contains :
    (groups : List String) → has_route_group groups ≡ contains "route.openshift.io" groups
unfolding has_route_group
has_route_group-eq-contains [] = refl
has_route_group-eq-contains (name ∷ groups) = ground (
  arith,
  has_route_group-eq-contains groups,
  eq_iff name "route.openshift.io",
  eq_iff "route.openshift.io" name,
)

-- The cluster is taken for OpenShift exactly when a configuration is found, a client can be made
-- of it, and the server lists a group named route.openshift.io.
pub detect_routes_iff :
    {E Config Client : Type 0} (config : Option Config) (client : Config → Option Client)
    (groups : Client → Reply E (List String))
    → (detect_routes config client groups ≡ true) ↔ (
        (c : Config) × (d : Client) × (names : List String) × (config ≡ some c)
        × (client c ≡ some d)
        × (groups d ≡ found names)
        × (contains "route.openshift.io" names ≡ true))
unfolding detect_routes
detect_routes_iff none client groups = (λ h. ground arith, λ h. ground arith)
detect_routes_iff (some config) client groups = (
  λ h. elim (Option-cases (client config)) [
    | inl e ↦ ground arith
    | inr (d, e) ↦ elim (Reply-cases (groups d)) [
      | inl (names, g) ↦
          (config, d, names, refl, e, g, ground (arith, has_route_group-eq-contains names))
      | inr (x, g) ↦ ground arith
    ]
  ],
  λ (c, d, names, p, q, g, h). ground (arith, has_route_group-eq-contains names),
)
