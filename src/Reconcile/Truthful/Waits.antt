-- ===== src/Reconcile/Truthful/Waits.antt =====
-- The phases that compute URLs, under the status `Ready`.
use horreum_operator.Common.{
  String, ◌<>◌, ◌==◌, ◌!=◌, ◌&&◌, not, Option, none, some, List, [], ◌∷◌, string_eq,
}
use horreum_operator.Common.Int.{ℤ, int_eq}
use horreum_operator.Objects.{
  empty_secret, service_type_load_balancer, Kind, Service, ServicePort, Secret, TlsConfig, Route,
  key_of,
}
use horreum_operator.Crd.{Horreum, HorreumReconciler, RouteSpec}
use horreum_operator.Cluster.{Api, M, Reply, found, failed, pure, raise, crash, ◌>>=◌, ◌>>◌}
use horreum_operator.Parts.Service.{is_node_port}
use horreum_operator.Urls.{load_balancer_url, get_service, get_node_port, get_load_balancer}
use horreum_operator.Routes.{
  termination_of, secret_config, fetch_tls_secret, tls_secret, tls_from_secret, tls, route,
  keycloak_route, app_route,
}
use horreum_operator.Status.{update_status}
use horreum_operator.Status.Truthful.{
  Observation, IsQuiet, IsTruthful, pure-IsTruthful, crash-Stops, raise-Stops, weaken-IsTruthful,
  Stops-IsTruthful, if-IsTruthful, bind-IsTruthful, last-Stops, first-Stops, update_status-Stops,
  Pending-ne-Ready,
}
use horreum_operator.Ensure.Truthful.{KeepsKeys, get-IsTruthful, ensure_same-IsTruthful}
use horreum_operator.Checks.{compare_route, check_route}
use horreum_operator.Checks.Faults.{compare_route-IgnoresMeta, check_route-IsFaultFinding}
use horreum_operator.Reconcile.Phases.{await_url, await_node_port, route_url, exposed_url}

module _ (api : Api) where
  -- Nothing is claimed but that the action changes no object and has begun with `Ready`.
  abbrev pub IsPassive : {A : Type 0} → M api A → Type 0
  IsPassive m = IsTruthful api m (λ _ _. Unit {0})

  module _ {A : Type 0} where
    pub pure-IsPassive : (a : A) → IsPassive (pure a)
    pure-IsPassive a = weaken-IsTruthful api (λ _ _ _. tt) (pure-IsTruthful api a)

    pub bind-IsPassive :
        {B : Type 0} {F : A → Observation api → Type 0} (m : M api A) (f : A → M api B)
        → IsTruthful api m F
        → ((a : A) → IsPassive (f a))
        → IsPassive (m >>= f)
    bind-IsPassive m f hm hf =
        bind-IsTruthful api m f hm (λ a. weaken-IsTruthful api (λ _ _ _ _. tt) (hf a))

  module _ (quiet : IsQuiet api) (keeps : KeepsKeys api) (cr : Horreum) where
    get_service-IsPassive : (s : Service) → IsPassive (get_service api s)
    unfolding get_service
    get_service-IsPassive s =
        weaken-IsTruthful api (λ _ _ _. tt)
          (get-IsTruthful api cr quiet Kind.service (key_of s.metadata))

    get_node_port-IsPassive : (s : Service) → IsPassive (get_node_port api s)
    unfolding get_node_port
    get_node_port-IsPassive s = bind-IsPassive _ _ (get_service-IsPassive s) λ reply. from reply
      where
        port_of :
            (ports : List ServicePort)
            → IsPassive {A = ℤ} (elim ports [ [] ↦ crash | p ∷ _ ↦ pure p.node_port ])
        port_of [] = Stops-IsTruthful api (crash-Stops api)
        port_of (p ∷ _) = pure-IsPassive _

        from :
            (reply : Reply api.Error Service)
            → IsPassive {A = ℤ} (elim reply [
              | failed e ↦ raise e
              | found svc ↦ elim svc.spec.ports [ [] ↦ crash | p ∷ _ ↦ pure p.node_port ]
            ])
        from (failed e) = Stops-IsTruthful api (raise-Stops api e)
        from (found svc) = port_of svc.spec.ports

    get_load_balancer-IsPassive : (s : Service) → IsPassive (get_load_balancer api s)
    unfolding get_load_balancer
    get_load_balancer-IsPassive s = bind-IsPassive _ _ (get_service-IsPassive s) λ reply. from reply
      where
        from :
            (reply : Reply api.Error Service)
            → IsPassive {A = String}
                (elim reply [ failed _ ↦ load_balancer_url api none | found _ ↦ pure "" ])
        from (failed e) = Stops-IsTruthful api (crash-Stops api)
        from (found svc) = pure-IsPassive ""

    await_url-IsPassive : (reason url : String) → IsPassive (await_url api cr reason url)
    unfolding await_url
    await_url-IsPassive reason url =
        if-IsTruthful api (url == "")
          (λ _.
            first-Stops api _ _ (update_status-Stops api cr "Pending" reason Pending-ne-Ready)
              (λ _. pure-IsTruthful api none))
          (λ _. pure-IsPassive (some url))

    await_node_port-IsPassive :
        (reason : String) (port : ℤ) → IsPassive (await_node_port api cr reason port)
    unfolding await_node_port
    await_node_port-IsPassive reason port =
        if-IsTruthful api (port == ℤ.pos 0)
          (λ _.
            first-Stops api _ _ (update_status-Stops api cr "Pending" reason Pending-ne-Ready)
              (λ _. pure-IsTruthful api none))
          (λ _. pure-IsPassive _)

    route_url-IsPassive : (r : Option Route) → IsPassive (route_url api cr r)
    unfolding route_url
    route_url-IsPassive none = Stops-IsTruthful api (crash-Stops api)
    route_url-IsPassive (some r) =
        bind-IsPassive _ _
          (ensure_same-IsTruthful api cr quiet keeps Kind.route r compare_route check_route
            compare_route-IgnoresMeta check_route-IsFaultFinding)
          (λ out. pure-IsPassive _)

    pub exposed_url-IsPassive :
        (r : HorreumReconciler) (service_type : String) (service : Service) (route : Option Route)
        (port_reason url_reason : String)
        → IsPassive (exposed_url api r cr service_type service route port_reason url_reason)
    unfolding exposed_url
    exposed_url-IsPassive r service_type service route port_reason url_reason =
        if-IsTruthful api (is_node_port r service_type)
          (λ _.
            bind-IsPassive _ _ (get_node_port-IsPassive service)
              (λ port. await_node_port-IsPassive port_reason port))
          (λ _.
            if-IsTruthful api (service_type == service_type_load_balancer)
              (λ _.
                bind-IsPassive _ _ (get_load_balancer-IsPassive service)
                  (λ url. await_url-IsPassive url_reason url))
              (λ _.
                if-IsTruthful api r.routes_available
                  (λ _.
                    bind-IsPassive _ _ (route_url-IsPassive route)
                      (λ url. await_url-IsPassive url_reason url))
                  (λ _. await_url-IsPassive url_reason "")))

    fetch_tls_secret-IsPassive : (spec : RouteSpec) → IsPassive (fetch_tls_secret api cr spec)
    unfolding fetch_tls_secret
    fetch_tls_secret-IsPassive spec =
        bind-IsPassive _ _ (get-IsTruthful api cr quiet Kind.secret _) λ reply. from reply
      where
        from :
            (reply : Reply api.Error Secret)
            → IsPassive (elim reply [
              | found secret ↦ pure secret
              | failed e ↦
                  update_status api cr "Error" ("Cannot find secret " <> spec.tls) >> raise e
            ])
        from (found secret) = pure-IsPassive secret
        from (failed e) = last-Stops api _ _ (λ _. raise-Stops api e)

    tls_secret-IsPassive : (spec : RouteSpec) → IsPassive (tls_secret api cr spec)
    unfolding tls_secret
    tls_secret-IsPassive spec =
        if-IsTruthful api (cr.spec.route.tls != "") (λ _. fetch_tls_secret-IsPassive spec)
          (λ _. pure-IsPassive empty_secret)

    tls_from_secret-IsPassive : (spec : RouteSpec) → IsPassive (tls_from_secret api cr spec)
    unfolding tls_from_secret
    tls_from_secret-IsPassive spec =
        bind-IsPassive _ _ (tls_secret-IsPassive spec)
          λ secret. from secret (termination_of cr.spec.route.type)
      where
        from :
            (secret : Secret) (t : Option String)
            → IsPassive {A = Option TlsConfig} (elim t [
              | some termination ↦ pure (some (secret_config termination secret))
              | none ↦ raise (api.new_error ("Invalid route type: " <> cr.spec.route.type))
            ])
        from secret (some t) = pure-IsPassive _
        from secret none = Stops-IsTruthful api (raise-Stops api _)

    tls-IsPassive : (spec : RouteSpec) → IsPassive (tls api cr spec)
    unfolding tls
    tls-IsPassive spec =
        if-IsTruthful api (cr.spec.route.type == "http") (λ _. pure-IsPassive _)
          (λ _.
            if-IsTruthful api (cr.spec.route.type == "passthrough") (λ _. pure-IsPassive _)
              (λ _. tls_from_secret-IsPassive spec))

    route-IsPassive :
        (spec : RouteSpec) (suffix : String) (r : HorreumReconciler)
        → IsPassive (route api spec suffix cr r)
    unfolding route
    route-IsPassive spec suffix r =
        if-IsTruthful api (not r.routes_available) (λ _. pure-IsPassive _)
          (λ _. bind-IsPassive _ _ (tls-IsPassive spec) (λ config. pure-IsPassive _))

    pub keycloak_route-IsPassive : (r : HorreumReconciler) → IsPassive (keycloak_route api cr r)
    unfolding keycloak_route
    keycloak_route-IsPassive r =
        if-IsTruthful api
          (cr.spec.keycloak.route.type != "passthrough"
            && cr.spec.keycloak.route.type != "reencrypt"
            && cr.spec.keycloak.route.type != "")
          (λ _. Stops-IsTruthful api (raise-Stops api _))
          (λ _. route-IsPassive cr.spec.keycloak.route "-keycloak" r)

    pub app_route-IsPassive : (r : HorreumReconciler) → IsPassive (app_route api cr r)
    unfolding app_route
    app_route-IsPassive r = route-IsPassive cr.spec.route "" r
