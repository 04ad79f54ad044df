-- ===== src/Scope/Phases.antt =====
-- The phases of `Reconcile`, and the whole of it after the status has been set to `Ready`.
use horreum_operator.Common.{
  String, refl, inr, ◌==◌, not, Option, none, some, List, [], ◌∷◌, ◌++◌, string_eq,
}
use horreum_operator.Common.Int.{ℤ, pos, int_eq}
use horreum_operator.Objects.{Kind, Resource, Service, Secret, Route, service_type_load_balancer}
use horreum_operator.Crd.{Horreum, HorreumReconciler}
use horreum_operator.Cluster.{Api, M, ◌>>=◌, ◌>>◌}
use horreum_operator.Certs.{Crypto}
use horreum_operator.Defaults.{
  db_admin_secret, app_user_secret, keycloak_db_secret, keycloak_admin_secret, horreum_admin_secret,
}
use horreum_operator.Ensure.{CompareFunc, CheckFunc}
use horreum_operator.Ensure.Truthful.{KeepsKeys, IsFaultFinding}
use horreum_operator.Parts.Service.{is_node_port}
use horreum_operator.Parts.Postgres.{postgres_config_map, postgres_pod, postgres_service}
use horreum_operator.Parts.Keycloak.{keycloak_service}
use horreum_operator.Secrets.{user_keys, new_secret}
use horreum_operator.Checks.{
  nocompare, compare_pods, compare_service, compare_route, compare_config_map, nocheck,
  check_secret, check_pod, check_route,
}
use horreum_operator.Checks.Faults.{
  nocheck-IsFaultFinding, check_secret-IsFaultFinding, check_pod-IsFaultFinding,
  check_route-IsFaultFinding,
}
use horreum_operator.Reconcile.{
  service_ca_config_map, postgres_disabled, add_db_secret, certificates, keep_secret, secrets, keep,
  postgres, route_url, await_url, await_node_port, exposed_url, set_keycloak_url, record_url,
  keycloak_url,
}
use horreum_operator.Scope.{here, next, exposed_keycloak}
use horreum_operator.Scope.Rules.{
  Confined, pure-Confined, crash-IsConfined, if-IsConfined, bind-IsConfined, then-IsConfined,
  update_status-Confined,
}
use horreum_operator.Scope.Ensure.{IsLocal, ensure_same-Confined, ensure_deleted-Confined}
use horreum_operator.Scope.Values.{
  IsLocalRoute, generate_password-Confined, new_secret-IsConfined, get_node_port-Confined,
  get_load_balancer-Confined,
}
use horreum_operator.Scope.Authority.{create_ca-Confined, create_service_cert-Confined}

module _ (api : Api) (crypto : Crypto api) (cr : Horreum) (keeps : KeepsKeys api) where
  pub keep-Confined :
      (k : Kind) (object : Resource k) (compare : CompareFunc) (check : CheckFunc)
      → IsFaultFinding check
      → IsLocal api crypto cr k object
      → Confined api crypto cr (keep api cr k object compare check)
  keep-Confined k object compare check fault local =
      then-IsConfined api crypto cr _ _
        (ensure_same-Confined api crypto cr keeps k object compare check fault local)
        (λ _. pure-Confined api crypto cr tt)

  keep_secret-Confined :
      (secret : Secret) (keys : List String)
      → IsLocal api crypto cr Kind.secret secret
      → Confined api crypto cr (keep_secret api cr secret keys)
  unfolding keep_secret
  keep_secret-Confined secret keys local =
      then-IsConfined api crypto cr _ _
        (ensure_same-Confined api crypto cr keeps Kind.secret secret nocompare (check_secret keys)
          (check_secret-IsFaultFinding keys) local)
        (λ _. pure-Confined api crypto cr tt)

  -- A secret that is made and kept, and what follows.
  kept_secret-Confined :
      (name : String) (keys : List String) (rest : M api (Unit {0}))
      → Confined api crypto cr rest
      → Confined api crypto cr (new_secret api cr name >>= λ s. keep_secret api cr s keys >> rest)
  kept_secret-Confined name keys rest h =
      bind-IsConfined api crypto cr _ _ _ (new_secret-IsConfined api crypto cr name)
        (λ s local. then-IsConfined api crypto cr _ _ (keep_secret-Confined s keys local) (λ _. h))

  pub secrets-Confined : Confined api crypto cr (secrets api cr)
  unfolding secrets add_db_secret
  secrets-Confined = kept_secret-Confined (db_admin_secret cr) user_keys _ (
      bind-IsConfined api crypto cr _ _ _ (new_secret-IsConfined api crypto cr (app_user_secret cr))
        (λ app local.
          then-IsConfined api crypto cr _ _ (generate_password-Confined api crypto cr) (λ password.
            then-IsConfined api crypto cr _ _
              (keep_secret-Confined (add_db_secret app password) (user_keys ++ ("dbsecret" ∷ []))
                local)
              (λ _. kept_secret-Confined (keycloak_admin_secret cr) user_keys _ (
                kept_secret-Confined (keycloak_db_secret cr) user_keys _ (
                  bind-IsConfined api crypto cr _ _ _
                    (new_secret-IsConfined api crypto cr (horreum_admin_secret cr))
                    (λ s h. keep_secret-Confined s user_keys h)))))))

  await_url-Confined : (reason url : String) → Confined api crypto cr (await_url api cr reason url)
  unfolding await_url
  await_url-Confined reason url =
      if-IsConfined api crypto cr (url == "")
        (λ _.
          then-IsConfined api crypto cr _ _
            (update_status-Confined api crypto cr "Pending" reason (inr refl))
            (λ _. pure-Confined api crypto cr none))
        (λ _. pure-Confined api crypto cr (some url))

  await_node_port-Confined :
      (reason : String) (port : ℤ) → Confined api crypto cr (await_node_port api cr reason port)
  unfolding await_node_port
  await_node_port-Confined reason port =
      if-IsConfined api crypto cr (port == pos 0)
        (λ _.
          then-IsConfined api crypto cr _ _
            (update_status-Confined api crypto cr "Pending" reason (inr refl))
            (λ _. pure-Confined api crypto cr none))
        (λ _. pure-Confined api crypto cr _)

  route_url-Confined :
      (route : Option Route)
      → IsLocalRoute api crypto cr route
      → Confined api crypto cr (route_url api cr route)
  unfolding route_url
  route_url-Confined none _ = crash-IsConfined api crypto cr
  route_url-Confined (some route) local =
      then-IsConfined api crypto cr _ _
        (ensure_same-Confined api crypto cr keeps Kind.route route compare_route check_route
          check_route-IsFaultFinding local)
        (λ out. pure-Confined api crypto cr _)

  pub record_url-Confined :
      (write : String → M api (Unit {0})) (url : Option String)
      → ((u : String) → Confined api crypto cr (write u))
      → Confined api crypto cr (record_url api write url)
  unfolding record_url
  record_url-Confined write none h = pure-Confined api crypto cr none
  record_url-Confined write (some u) h =
      then-IsConfined api crypto cr _ _ (h u) (λ _. pure-Confined api crypto cr (some u))

  module _ (r : HorreumReconciler) where
    pub certificates-Confined : Confined api crypto cr (certificates api crypto r cr)
    unfolding certificates
    certificates-Confined =
        if-IsConfined api crypto cr (not r.routes_available)
          (λ _. then-IsConfined api crypto cr _ _ (create_ca-Confined api crypto cr keeps) (λ ca.
            then-IsConfined api crypto cr _ _
              (create_service_cert-Confined api crypto cr keeps ca.0 ca.1 _ _ _)
              (λ _. create_service_cert-Confined api crypto cr keeps ca.0 ca.1 _ _ _)))
          (λ _.
            then-IsConfined api crypto cr _ _
              (ensure_same-Confined api crypto cr keeps Kind.config_map (service_ca_config_map cr)
                nocompare nocheck nocheck-IsFaultFinding refl)
              (λ _. pure-Confined api crypto cr tt))

    pub postgres-Confined : Confined api crypto cr (postgres api r cr)
    unfolding postgres postgres_config_map postgres_pod postgres_service
    postgres-Confined =
        if-IsConfined api crypto cr (postgres_disabled cr)
          (λ _.
            then-IsConfined api crypto cr _ _
              (ensure_deleted-Confined api crypto cr Kind.pod (postgres_pod cr r) refl)
              (λ _. ensure_deleted-Confined api crypto cr Kind.service (postgres_service cr) refl))
          (λ _.
            then-IsConfined api crypto cr _ _
              (keep-Confined Kind.config_map (postgres_config_map cr) compare_config_map nocheck
                nocheck-IsFaultFinding refl)
              (λ _.
                then-IsConfined api crypto cr _ _
                  (keep-Confined Kind.pod (postgres_pod cr r) (compare_pods api.deep_derivative)
                    check_pod check_pod-IsFaultFinding refl)
                  (λ _.
                    keep-Confined Kind.service (postgres_service cr) compare_service nocheck
                      nocheck-IsFaultFinding refl)))

    pub exposed_url-Confined :
        (t : String) (service : Service) (route : Option Route) (port_reason url_reason : String)
        → IsLocalRoute api crypto cr route
        → Confined api crypto cr (exposed_url api r cr t service route port_reason url_reason)
    unfolding exposed_url
    exposed_url-Confined t service route port_reason url_reason local =
        if-IsConfined api crypto cr (is_node_port r t)
          (λ _.
            then-IsConfined api crypto cr _ _ (get_node_port-Confined api crypto cr service)
              (λ port. await_node_port-Confined port_reason port))
          (λ _.
            if-IsConfined api crypto cr (t == service_type_load_balancer)
              (λ _.
                then-IsConfined api crypto cr _ _ (get_load_balancer-Confined api crypto cr service)
                  (λ url. await_url-Confined url_reason url))
              (λ _.
                if-IsConfined api crypto cr r.routes_available
                  (λ _.
                    then-IsConfined api crypto cr _ _ (route_url-Confined route local)
                      (λ url. await_url-Confined url_reason url))
                  (λ _. await_url-Confined url_reason "")))

    pub keycloak_url-Confined :
        (route : Option Route)
        → IsLocalRoute api crypto cr route
        → Confined api crypto cr (keycloak_url api r cr route)
    unfolding keycloak_url keycloak_service
    keycloak_url-Confined route local =
        then-IsConfined api crypto cr _ _
          (if-IsConfined api crypto cr (cr.spec.keycloak.external.public_uri == "")
            (λ _.
              then-IsConfined api crypto cr _ _
                (keep-Confined Kind.service (keycloak_service cr r) compare_service nocheck
                  nocheck-IsFaultFinding refl)
                (λ _.
                  exposed_url-Confined cr.spec.keycloak.service_type (keycloak_service cr r) route
                    "Waiting for Keycloak service node port" "Waiting for Keycloak service URL"
                    local))
            (λ _. pure-Confined api crypto cr _))
          (λ url.
            record_url-Confined (set_keycloak_url api) url
              (λ u. record { runs = λ s. next here (exposed_keycloak s u); returns = λ s a e. tt }))
