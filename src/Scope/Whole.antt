-- ===== src/Scope/Whole.antt =====
-- The phases from Keycloak on, and the whole of a reconciliation.
use horreum_operator.Common.{String, refl, ◌!=◌, Option, none, some, string_eq}
use horreum_operator.Common.Int.{int_eq}
use horreum_operator.Objects.{Kind, Route, Pod}
use horreum_operator.Crd.{Horreum, HorreumReconciler}
use horreum_operator.Cluster.{Api, M, ◌>>=◌, ◌>>◌}
use horreum_operator.Certs.{Crypto}
use horreum_operator.Ensure.{ensure_deleted}
use horreum_operator.Ensure.Truthful.{KeepsKeys}
use horreum_operator.Parts.Keycloak.{keycloak_pod, keycloak_pod_at, keycloak_service}
use horreum_operator.Parts.App.{app_pod, app_service}
use horreum_operator.Parts.Upload.{upload_config}
use horreum_operator.Routes.{keycloak_route}
use horreum_operator.Checks.{nocompare, compare_pods, compare_service, nocheck, check_pod}
use horreum_operator.Checks.Faults.{nocheck-IsFaultFinding, check_pod-IsFaultFinding}
use horreum_operator.Reconcile.{
  certificates, secrets, postgres, set_public_url, keycloak_url, non_nil, remove_keycloak,
  place_keycloak, keycloak_instance, app_url, app_instance, Result, requeue, done, finish,
  with_keycloak,
}
use horreum_operator.Scope.{here, next, exposed}
use horreum_operator.Scope.Rules.{
  Confined, pure-Confined, crash-IsConfined, if-IsConfined, bind-IsConfined, then-IsConfined,
  publish-Confined,
}
use horreum_operator.Scope.Ensure.{IsLocal, ensure_deleted-Confined}
use horreum_operator.Scope.Values.{IsLocalRoute, keycloak_route-IsConfined, app_route-IsConfined}
use horreum_operator.Scope.Phases.{
  keep-Confined, secrets-Confined, record_url-Confined, certificates-Confined, postgres-Confined,
  exposed_url-Confined, keycloak_url-Confined,
}

module _ (api : Api) (crypto : Crypto api) (cr : Horreum) (keeps : KeepsKeys api) where
  module _ (r : HorreumReconciler) where
    remove_keycloak-Confined :
        (route : Option Route) (pod : Pod)
        → IsLocalRoute api crypto cr route
        → IsLocal api crypto cr Kind.pod pod
        → Confined api crypto cr (remove_keycloak api r cr route pod)
    unfolding remove_keycloak keycloak_service
    remove_keycloak-Confined route pod local here_pod =
        then-IsConfined api crypto cr _ _
          (ensure_deleted-Confined api crypto cr Kind.pod pod here_pod)
          (λ _.
            then-IsConfined api crypto cr _ _
              (ensure_deleted-Confined api crypto cr Kind.service (keycloak_service cr r) refl)
              (λ _.
                if-IsConfined api crypto cr r.routes_available (λ _. drop route local)
                  (λ _. pure-Confined api crypto cr tt)))
      where
        drop :
            (o : Option Route)
            → IsLocalRoute api crypto cr o
            → Confined api crypto cr (non_nil api o >>= ensure_deleted api cr Kind.route)
        drop none _ = crash-IsConfined api crypto cr
        drop (some found_route) h = ensure_deleted-Confined api crypto cr Kind.route found_route h

    place_keycloak-Confined :
        (route : Option Route) (pod : Pod)
        → IsLocalRoute api crypto cr route
        → IsLocal api crypto cr Kind.pod pod
        → Confined api crypto cr (place_keycloak api r cr route pod)
    unfolding place_keycloak
    place_keycloak-Confined route pod local here_pod =
        if-IsConfined api crypto cr (cr.spec.keycloak.external.public_uri != "")
          (λ _. remove_keycloak-Confined route pod local here_pod)
          (λ _.
            keep-Confined api crypto cr keeps Kind.pod pod (compare_pods api.deep_derivative)
              check_pod check_pod-IsFaultFinding here_pod)

    keycloak_instance-Confined :
        (route : Option Route) (url : String)
        → IsLocalRoute api crypto cr route
        → Confined api crypto cr (keycloak_instance api r cr route url)
    unfolding keycloak_instance keycloak_pod keycloak_pod_at
    keycloak_instance-Confined route url local = parsed (api.parse_request_uri url)
      where
        parsed :
            (host : Option String)
            → Confined api crypto cr (
                non_nil api (elim host [ some h ↦ some (keycloak_pod_at cr h) | none ↦ none ])
                >>= place_keycloak api r cr route)
        parsed none = crash-IsConfined api crypto cr
        parsed (some host) = place_keycloak-Confined route (keycloak_pod_at cr host) local refl

    app_url-Confined : Confined api crypto cr (app_url api r cr)
    unfolding app_url app_service
    app_url-Confined =
        bind-IsConfined api crypto cr _ _ _ (app_route-IsConfined api crypto cr r) (λ route local.
          then-IsConfined api crypto cr _ _
            (keep-Confined api crypto cr keeps Kind.service (app_service cr r) compare_service
              nocheck nocheck-IsFaultFinding refl)
            (λ _.
              then-IsConfined api crypto cr _ _
                (exposed_url-Confined api crypto cr keeps r cr.spec.service_type (app_service cr r)
                  route "Waiting for service node port" "Waiting for Horreum service URL" local)
                (λ url.
                  record_url-Confined api crypto cr keeps (set_public_url api) url
                    (λ u. record { runs = λ s. next here (exposed s u); returns = λ s a e. tt }))))

    app_instance-Confined :
        (keycloak_public_url app_public_url : String)
        → Confined api crypto cr (app_instance api cr keycloak_public_url app_public_url)
    unfolding app_instance app_pod upload_config
    app_instance-Confined keycloak_public_url app_public_url =
        then-IsConfined api crypto cr _ _
          (keep-Confined api crypto cr keeps Kind.pod
            (app_pod cr keycloak_public_url app_public_url) (compare_pods api.deep_derivative)
            check_pod check_pod-IsFaultFinding refl)
          (λ _.
            keep-Confined api crypto cr keeps Kind.config_map (upload_config cr) nocompare nocheck
              nocheck-IsFaultFinding refl)

    finish-Confined :
        (keycloak_public_url : String) (url : Option String)
        → Confined api crypto cr (finish api crypto r cr keycloak_public_url url)
    unfolding finish
    finish-Confined keycloak_public_url none = pure-Confined api crypto cr requeue
    finish-Confined keycloak_public_url (some u) =
        then-IsConfined api crypto cr _ _ (app_instance-Confined keycloak_public_url u) (λ _.
          then-IsConfined api crypto cr _ _ (publish-Confined api crypto cr)
            (λ _. pure-Confined api crypto cr done))

    with_keycloak-Confined :
        (route : Option Route) (url : Option String)
        → IsLocalRoute api crypto cr route
        → Confined api crypto cr (with_keycloak api crypto r cr route url)
    unfolding with_keycloak
    with_keycloak-Confined route none local = pure-Confined api crypto cr requeue
    with_keycloak-Confined route (some url) local =
        then-IsConfined api crypto cr _ _ (keycloak_instance-Confined route url local)
          (λ _. then-IsConfined api crypto cr _ _ app_url-Confined (λ u. finish-Confined url u))

    -- All that follows the database.
    abbrev pub fronted : M api Result
    fronted = do
      route ← keycloak_route api cr r
      url ← keycloak_url api r cr route
      with_keycloak api crypto r cr route url

    pub fronted-Confined : Confined api crypto cr fronted
    fronted-Confined =
        bind-IsConfined api crypto cr _ _ _ (keycloak_route-IsConfined api crypto cr r)
          (λ route local.
            then-IsConfined api crypto cr _ _
              (keycloak_url-Confined api crypto cr keeps r route local)
              (λ url. with_keycloak-Confined route url local))

    -- All that follows `start_status`.
    abbrev pub started : M api Result
    started = do certificates api crypto r cr; secrets api cr; postgres api r cr; fronted

    pub started-Confined : Confined api crypto cr started
    started-Confined =
        then-IsConfined api crypto cr _ _ (certificates-Confined api crypto cr keeps r) (λ _.
          then-IsConfined api crypto cr _ _ (secrets-Confined api crypto cr keeps) (λ _.
            then-IsConfined api crypto cr _ _ (postgres-Confined api crypto cr keeps r)
              (λ _. fronted-Confined)))
