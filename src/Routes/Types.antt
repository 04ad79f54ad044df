-- ===== src/Routes/Types.antt =====
-- What becomes of the types of routes.
use horreum_operator.Common.{
  String, ◌<>◌, ◌≡◌, refl, sym, ◌∙◌, ◌↔◌, ◌⊎◌, inl, inr, true, false, ◌==◌, Option, none, some,
  string_eq, eq_iff, arith,
}
use horreum_operator.Objects.{
  Route, TlsConfig, empty_secret, tls_termination_edge, tls_termination_reencrypt,
}
use horreum_operator.Crd.{RouteSpec, Horreum, HorreumReconciler}
use horreum_operator.Cluster.{Api, State, ok, err, ◌>>=◌}
use horreum_operator.Parts.Wiring.Ports.{IsRouteType}
use horreum_operator.Routes.{
  passthrough_config, secret_config, termination_of, tls_secret, tls_from_secret, tls, route,
  route_with, keycloak_route,
}

configured :
    {t u : String} {config : TlsConfig}
    → t ≡ u
    → (u == "http") ≡ false
    → (some config ≡ none) ↔ (t ≡ "http")
configured {t} {u} e differs = (λ q. cc, λ q. ground (arith, eq_iff u "http", sym e ∙ q))

IsRouteType-cases :
    (t : String)
    → IsRouteType t
      ⊎ ((¬ IsRouteType t)
          × ((t == "http") ≡ false)
          × ((t == "passthrough") ≡ false)
          × ((t == "edge") ≡ false)
          × ((t == "reencrypt") ≡ false)
          × ((t == "") ≡ false))
IsRouteType-cases t = ground (
  arith,
  eq_iff t "http",
  eq_iff t "edge",
  eq_iff t "passthrough",
  eq_iff t "reencrypt",
  eq_iff t "",
)

-- If the route of the application names no secret, a valid type gives a configuration, and none at
-- all exactly for the type http; any other type is an error. The status and the world stay.
pub tls_lem :
    (api : Api) (cr : Horreum) (spec : RouteSpec) (s : State api)
    → cr.spec.route.tls ≡ ""
    → (IsRouteType cr.spec.route.type
        × ((config : Option TlsConfig) × (tls api cr spec s ≡ (ok config, s))
            × ((config ≡ none) ↔ (cr.spec.route.type ≡ "http"))))
      ⊎ ((¬ IsRouteType cr.spec.route.type)
          × (tls api cr spec s
              ≡ (err (api.new_error ("Invalid route type: " <> cr.spec.route.type)), s)))
unfolding tls tls_from_secret tls_secret termination_of
tls_lem api cr spec s blank = elim (IsRouteType-cases cr.spec.route.type) [
  | inl (inl e) ↦ inl (inl e, (none, rw e refl, (λ _. e, λ _. refl)))
  | inl (inr (inl e)) ↦ inl (
    inr (inl e),
    (some (secret_config tls_termination_edge empty_secret), rw (e, blank) refl, configured e refl),
  )
  | inl (inr (inr (inl e))) ↦
      inl (inr (inr (inl e)), (some passthrough_config, rw e refl, configured e refl))
  | inl (inr (inr (inr (inl e)))) ↦ inl (
    inr (inr (inr (inl e))),
    (
      some (secret_config tls_termination_reencrypt empty_secret),
      rw (e, blank) refl,
      configured e refl,
    ),
  )
  | inl (inr (inr (inr (inr e)))) ↦ inl (
    inr (inr (inr (inr e))),
    (
      some (secret_config tls_termination_reencrypt empty_secret),
      rw (e, blank) refl,
      configured e refl,
    ),
  )
  | inr (h, a, b, c, d, f) ↦ inr (h, rw (a, b, blank, c, d, f) refl)
]

-- The route of Keycloak with a valid type of its own, on a cluster with routes: if the route of the
-- application has a valid type and names no secret, the route leads to Keycloak's service, and it has
-- no TLS configuration exactly if the type of the application's route is http, although Keycloak is
-- meant to have TLS-encrypted routes alone. The status and the world stay.
pub keycloak_route_lem :
    (api : Api) (cr : Horreum) (r : HorreumReconciler) (s : State api)
    → r.routes_available ≡ true
    → (cr.spec.keycloak.route.type ≡ "passthrough")
      ⊎ (cr.spec.keycloak.route.type ≡ "reencrypt")
      ⊎ (cr.spec.keycloak.route.type ≡ "")
    → IsRouteType cr.spec.route.type
    → cr.spec.route.tls ≡ ""
    → (made : Route) × (keycloak_route api cr r s ≡ (ok (some made), s))
      × (made.spec.to.name ≡ cr.metadata.name <> "-keycloak")
      × ((made.spec.tls ≡ none) ↔ (cr.spec.route.type ≡ "http"))
unfolding keycloak_route route route_with
keycloak_route_lem api cr r s routes own valid blank =
    elim (tls_lem api cr cr.spec.keycloak.route s blank) [
      | inl (_, (config, e, plain)) ↦ (
        route_with cr.spec.keycloak.route "-keycloak" cr config,
        elim own [
          | inl t ↦ rw (routes, t, ◌>>=◌, e) (rw e refl)
          | inr (inl t) ↦ rw (routes, t, ◌>>=◌, e) (rw e refl)
          | inr (inr t) ↦ rw (routes, t, ◌>>=◌, e) (rw e refl)
        ],
        refl,
        plain,
      )
      | inr (invalid, _) ↦ absurd (invalid valid)
    ]
