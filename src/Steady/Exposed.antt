-- ===== src/Steady/Exposed.antt =====
-- Objects that are kept, and the URL under which a service is reached.
use horreum_operator.Common.{
  String, ◌≡◌, refl, sym, ap, ◌∙◌, ◌≢◌, ◌⊎◌, inl, inr, true, false, ◌==◌, Option, none, some, List,
  ◌∷◌, arith, string_eq, eq_iff,
}
use horreum_operator.Common.Int.{ℤ, pos, int_eq, int_beq_iff}
use horreum_operator.Objects.{
  Kind, Resource, Service, ServicePort, Route, key_of, empty_route, service_type_load_balancer,
}
use horreum_operator.Crd.{Horreum, HorreumReconciler}
use horreum_operator.Cluster.{Api, M, found}
use horreum_operator.Status.Truthful.{Observation, IsQuiet}
use horreum_operator.Ensure.{CompareFunc, CheckFunc}
use horreum_operator.Ensure.Truthful.{KeepsKeys, IgnoresMeta, IsHealthy}
use horreum_operator.Parts.Service.{is_node_port}
use horreum_operator.Checks.{compare_route, check_route}
use horreum_operator.Checks.Faults.{compare_route-IgnoresMeta}
use horreum_operator.Urls.{host_port_url, get_route_url}
use horreum_operator.Reconcile.{
  keep, route_url, await_url, await_node_port, exposed_url, record_url,
}
use horreum_operator.Steady.{
  IsSteady, Steady, pure-IsSteady, weaken-IsSteady, then-IsSteady, else-IsSteady, bind-IsSteady,
  after-IsSteady,
}
use horreum_operator.Steady.Ensure.{CanOwn, ensure_same-IsSteady}
use horreum_operator.Steady.Values.{get_node_port-IsSteady}

-- The service has a node port, and this is its URL.
abbrev pub IsNodePortUrl : (api : Api) → Observation api → Horreum → Service → String → Type 0
IsNodePortUrl api o cr service url =
    (svc : Service) × (p : ServicePort) × (rest : List ServicePort) × (o Kind.service
        (key_of service.metadata)
      ≡ found svc)
    × (svc.spec.ports ≡ p ∷ rest)
    × (p.node_port ≢ pos 0)
    × (url ≡ host_port_url cr.spec.node_host p.node_port)

-- The route is there, admitted and as planned, and this is its URL.
abbrev pub IsRouteUrl : (api : Api) → Observation api → Option Route → String → Type 0
IsRouteUrl api o route url =
    (planned : Route) × (route ≡ some planned)
    × ((healthy : IsHealthy api o Kind.route planned compare_route check_route) × (url
          ≡ get_route_url healthy.0)
        × (url ≢ ""))

-- The service is reached under the URL, by its node port or by a route.
abbrev pub IsExposed :
    (api : Api)
    → Observation api
    → HorreumReconciler
    → Horreum
    → String
    → Service
    → Option Route
    → String
    → Type 0
IsExposed api o r cr service_type service route url =
    ((is_node_port r service_type ≡ true) × IsNodePortUrl api o cr service url)
    ⊎ ((is_node_port r service_type ≡ false)
        × (service_type ≢ service_type_load_balancer)
        × (r.routes_available ≡ true)
        × IsRouteUrl api o route url)

module _ (api : Api) (o : Observation api) (quiet : IsQuiet api) (cr : Horreum)
    (keeps : KeepsKeys api) (owns : CanOwn api cr) where
  pub keep-Steady :
      (k : Kind) (object : Resource k) (compare : CompareFunc) (check : CheckFunc)
      → IgnoresMeta k compare
      → IsHealthy api o k object compare check
      → Steady api o (keep api cr k object compare check)
  keep-Steady k object compare check blind healthy =
      bind-IsSteady api o _ _ _
        (ensure_same-IsSteady api o quiet cr keeps owns k object compare check blind healthy)
        (λ _ _. pure-IsSteady api o _ tt tt)

  route_url-IsSteady :
      (planned : Route) (healthy : IsHealthy api o Kind.route planned compare_route check_route)
      (route : Option Route)
      → route ≡ some planned
      → IsSteady api o (route_url api cr route) (λ url. url ≡ get_route_url healthy.0)
  unfolding route_url
  route_url-IsSteady planned healthy route e = rw e (
      bind-IsSteady api o _ _ _
        (ensure_same-IsSteady api o quiet cr keeps owns Kind.route planned compare_route check_route
          compare_route-IgnoresMeta healthy)
        (λ out same.
          pure-IsSteady api o _ _
            (ap (λ x. get_route_url (elim x [ some f ↦ f | none ↦ empty_route ])) same)))

  await_url-IsSteady :
      (reason url : String)
      → url ≢ ""
      → IsSteady api o (await_url api cr reason url) (λ u. u ≡ some url)
  unfolding await_url
  await_url-IsSteady reason url known =
      else-IsSteady api o (url == "") _ _ (ground (arith, known, eq_iff url ""))
        (pure-IsSteady api o _ _ refl)

  await_node_port-IsSteady :
      (reason : String) (port : ℤ)
      → port ≢ pos 0
      → IsSteady api o
          (await_node_port api cr reason port)
          (λ u. u ≡ some (host_port_url cr.spec.node_host port))
  unfolding await_node_port
  await_node_port-IsSteady reason port known =
      else-IsSteady api o (port == pos 0) _ _ (ground (arith, known, int_beq_iff port (pos 0)))
        (pure-IsSteady api o _ _ refl)

  pub exposed_url-IsSteady :
      (r : HorreumReconciler) (service_type : String) (service : Service) (route : Option Route)
      (port_reason url_reason url : String)
      → IsExposed api o r cr service_type service route url
      → IsSteady api o
          (exposed_url api r cr service_type service route port_reason url_reason)
          (λ u. u ≡ some url)
  unfolding exposed_url
  exposed_url-IsSteady r service_type service route port_reason url_reason url
        (inl (e, (svc, p, rest, there, ports, known, made))) =
      then-IsSteady api o (is_node_port r service_type) _ _ e (
        bind-IsSteady api o _ _ _
          (get_node_port-IsSteady api o quiet service svc p rest there ports)
          (λ port same.
            weaken-IsSteady api o
              (λ u h. h ∙ ap some (ap (host_port_url cr.spec.node_host) same ∙ sym made))
              (await_node_port-IsSteady port_reason port (λ zero. known (sym same ∙ zero)))))
  exposed_url-IsSteady r service_type service route port_reason url_reason url
        (inr (e, other, routes, (planned, is_planned, (healthy, made, known)))) =
      else-IsSteady api o (is_node_port r service_type) _ _ e (
        else-IsSteady api o (service_type == service_type_load_balancer) _ _
          (ground (arith, other, eq_iff service_type service_type_load_balancer))
          (then-IsSteady api o r.routes_available _ _ routes (
            bind-IsSteady api o _ _ _ (route_url-IsSteady planned healthy route is_planned)
              (λ u same.
                weaken-IsSteady api o (λ v h. h ∙ ap some (same ∙ sym made))
                  (await_url-IsSteady url_reason u (λ blank. known (made ∙ sym same ∙ blank)))))))

  pub record_url-IsSteady :
      (write : String → M api (Unit {0})) (url : String)
      → Steady api o (write url)
      → (found_url : Option String) → found_url ≡ some url
      → IsSteady api o (record_url api write found_url) (λ u. u ≡ some url)
  unfolding record_url
  record_url-IsSteady write url h found_url e =
      rw e
        (after-IsSteady api o _ _ h (λ _. pure-IsSteady api o (λ u. u ≡ some url) (some url) refl))
