-- ===== src/Scope/Values.antt =====
-- The passwords, secrets, routes and URLs that `Reconcile` works with.
use Prim.Native.Char.{Char}
use horreum_operator.Common.{
  ℕ, zero, suc, String, ◌<>◌, refl, ◌==◌, ◌!=◌, ◌&&◌, not, Option, none, some, List, [], ◌∷◌,
  get_elem?, length, string_eq,
}
use horreum_operator.Common.Int.{ℤ}
use horreum_operator.Objects.{
  Kind, Secret, Route, Service, ServicePort, TlsConfig, key_of, empty_secret,
}
use horreum_operator.Crd.{Horreum, HorreumReconciler, RouteSpec}
use horreum_operator.Cluster.{Api, M, Reply, found, failed, pure, raise, crash, ◌>>◌}
use horreum_operator.Status.{update_status}
use horreum_operator.Certs.{Crypto}
use horreum_operator.Secrets.{chars, fill, generate_password, new_secret}
use horreum_operator.Routes.{
  termination_of, secret_config, passthrough_config, route_with, fetch_tls_secret, tls_secret,
  tls_from_secret, tls, route, keycloak_route, app_route,
}
use horreum_operator.Urls.{get_service, get_node_port, load_balancer_url, get_load_balancer}
use horreum_operator.Scope.{drawn, seeded}
use horreum_operator.Scope.Rules.{
  IsConfined, Confined, pure-IsConfined, pure-Confined, raise-IsConfined, crash-IsConfined,
  weaken-IsConfined, if-IsConfined, then-IsConfined, call-IsConfined, report_error-Confined,
}
use horreum_operator.Scope.Ensure.{IsLocal, get-IsConfined}

module _ (api : Api) (crypto : Crypto api) (cr : Horreum) where
  -- A call that only reads, with nothing said of its answer.
  read-Confined :
      {A : Type 0} {P : A → Type 0} (m : M api A)
      → IsConfined api crypto cr m P
      → Confined api crypto cr m
  read-Confined m h = weaken-IsConfined api crypto cr (λ _ _. tt) h

  pick-Confined :
      (o : Option Char)
      → Confined api crypto cr {A = Char} (elim o [ some c ↦ pure c | none ↦ crash ])
  pick-Confined (some c) = pure-Confined api crypto cr c
  pick-Confined none = crash-IsConfined api crypto cr

  fill-Confined : (n : ℕ) → Confined api crypto cr (fill api n)
  unfolding fill
  fill-Confined zero = pure-Confined api crypto cr ""
  fill-Confined (suc n) =
      then-IsConfined api crypto cr _ _
        (read-Confined _ (
          call-IsConfined api crypto cr (api.rand_intn (length chars))
            (λ w. drawn w (length chars))))
        (λ i. then-IsConfined api crypto cr _ _ (pick-Confined (get_elem? chars i)) (λ c.
          then-IsConfined api crypto cr _ _ (fill-Confined n)
            (λ rest. pure-Confined api crypto cr (String.◌∷◌ c rest))))

  pub generate_password-Confined : Confined api crypto cr (generate_password api)
  unfolding generate_password
  generate_password-Confined =
      then-IsConfined api crypto cr _ _
        (read-Confined _
          (call-IsConfined api crypto cr (λ w. (tt {0}, api.seed w)) (λ w. seeded w)))
        (λ _. fill-Confined 16)

  pub new_secret-IsConfined :
      (name : String)
      → IsConfined api crypto cr (new_secret api cr name) (λ s. IsLocal api crypto cr Kind.secret s)
  unfolding new_secret
  new_secret-IsConfined name =
      then-IsConfined api crypto cr _ _ generate_password-Confined
        (λ p. pure-IsConfined api crypto cr _ _ refl)

  fetch_tls_secret-Confined :
      (spec : RouteSpec) → Confined api crypto cr (fetch_tls_secret api cr spec)
  unfolding fetch_tls_secret
  fetch_tls_secret-Confined spec =
      then-IsConfined api crypto cr _ _
        (read-Confined _ (
          get-IsConfined api crypto cr Kind.secret
            (record { namespace = cr.metadata.namespace; name = cr.spec.route.tls })))
        λ reply. from reply
    where
      from :
          (reply : Reply api.Error Secret)
          → Confined api crypto cr (elim reply [
            | found secret ↦ pure secret
            | failed e ↦ update_status api cr "Error" ("Cannot find secret " <> spec.tls) >> raise e
          ])
      from (found secret) = pure-Confined api crypto cr secret
      from (failed e) = report_error-Confined api crypto cr _ e

  tls_secret-Confined : (spec : RouteSpec) → Confined api crypto cr (tls_secret api cr spec)
  unfolding tls_secret
  tls_secret-Confined spec =
      if-IsConfined api crypto cr (cr.spec.route.tls != "") (λ _. fetch_tls_secret-Confined spec)
        (λ _. pure-Confined api crypto cr empty_secret)

  tls_from_secret-Confined :
      (spec : RouteSpec) → Confined api crypto cr (tls_from_secret api cr spec)
  unfolding tls_from_secret
  tls_from_secret-Confined spec =
      then-IsConfined api crypto cr _ _ (tls_secret-Confined spec)
        (λ secret. from secret (termination_of cr.spec.route.type))
    where
      from :
          (secret : Secret) (termination : Option String)
          → Confined api crypto cr {A = Option TlsConfig} (elim termination [
            | some t ↦ pure (some (secret_config t secret))
            | none ↦ raise (api.new_error ("Invalid route type: " <> cr.spec.route.type))
          ])
      from secret (some t) = pure-Confined api crypto cr _
      from secret none = raise-IsConfined api crypto cr _

  tls-Confined : (spec : RouteSpec) → Confined api crypto cr (tls api cr spec)
  unfolding tls
  tls-Confined spec =
      if-IsConfined api crypto cr (cr.spec.route.type == "http")
        (λ _. pure-Confined api crypto cr none)
        (λ _.
          if-IsConfined api crypto cr (cr.spec.route.type == "passthrough")
            (λ _. pure-Confined api crypto cr (some passthrough_config))
            (λ _. tls_from_secret-Confined spec))

  -- A route, if there is one, lies in the namespace of the custom resource.
  abbrev pub IsLocalRoute : Option Route → Type 0
  IsLocalRoute none = Unit
  IsLocalRoute (some r) = IsLocal api crypto cr Kind.route r

  route-IsConfined :
      (spec : RouteSpec) (suffix : String) (r : HorreumReconciler)
      → IsConfined api crypto cr (route api spec suffix cr r) IsLocalRoute
  unfolding route route_with
  route-IsConfined spec suffix r =
      if-IsConfined api crypto cr (not r.routes_available)
        (λ _. pure-IsConfined api crypto cr IsLocalRoute none tt)
        (λ _.
          then-IsConfined api crypto cr _ _ (tls-Confined spec)
            (λ config. pure-IsConfined api crypto cr IsLocalRoute _ refl))

  pub keycloak_route-IsConfined :
      (r : HorreumReconciler) → IsConfined api crypto cr (keycloak_route api cr r) IsLocalRoute
  unfolding keycloak_route
  keycloak_route-IsConfined r =
      let t = cr.spec.keycloak.route.type in
      if-IsConfined api crypto cr (t != "passthrough" && t != "reencrypt" && t != "")
        {m = raise (api.new_error "keycloak supports only TLS-encrypted routes")}
        (λ _. raise-IsConfined api crypto cr _)
        (λ _. route-IsConfined cr.spec.keycloak.route "-keycloak" r)

  pub app_route-IsConfined :
      (r : HorreumReconciler) → IsConfined api crypto cr (app_route api cr r) IsLocalRoute
  unfolding app_route
  app_route-IsConfined r = route-IsConfined cr.spec.route "" r

  get_service-Confined : (s : Service) → Confined api crypto cr (get_service api s)
  unfolding get_service
  get_service-Confined s =
      read-Confined _ (get-IsConfined api crypto cr Kind.service (key_of s.metadata))

  pub get_node_port-Confined : (s : Service) → Confined api crypto cr (get_node_port api s)
  unfolding get_node_port
  get_node_port-Confined s =
      then-IsConfined api crypto cr _ _ (get_service-Confined s) λ reply. from reply
    where
      port_of :
          (ports : List ServicePort)
          → Confined api crypto cr {A = ℤ} (elim ports [ [] ↦ crash | p ∷ _ ↦ pure p.node_port ])
      port_of [] = crash-IsConfined api crypto cr
      port_of (p ∷ _) = pure-Confined api crypto cr _

      from :
          (reply : Reply api.Error Service)
          → Confined api crypto cr {A = ℤ} (elim reply [
            | failed e ↦ raise e
            | found svc ↦ elim svc.spec.ports [ [] ↦ crash | p ∷ _ ↦ pure p.node_port ]
          ])
      from (failed e) = raise-IsConfined api crypto cr e
      from (found svc) = port_of svc.spec.ports

  pub get_load_balancer-Confined : (s : Service) → Confined api crypto cr (get_load_balancer api s)
  unfolding get_load_balancer load_balancer_url
  get_load_balancer-Confined s =
      then-IsConfined api crypto cr _ _ (get_service-Confined s) λ reply. from reply
    where
      from :
          (reply : Reply api.Error Service)
          → Confined api crypto cr {A = String}
              (elim reply [ failed _ ↦ load_balancer_url api none | found _ ↦ pure "" ])
      from (failed e) = crash-IsConfined api crypto cr
      from (found svc) = pure-Confined api crypto cr ""
