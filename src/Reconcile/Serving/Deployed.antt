-- ===== src/Reconcile/Serving/Deployed.antt =====
-- The database, Keycloak and the application, each with what `Ready` says of it after its phase.
use horreum_operator.Common.{
  String, ◌≡◌, refl, sym, ◌∙◌, ap, false, ◌==◌, ◌!=◌, Option, none, some, string_eq, eq_iff,
}
use mathlib.Core.Path.{subst}
use mathlib.Core.Bool.{true≢false, not}
use horreum_operator.Objects.{Kind, Resource, Route, Pod}
use horreum_operator.Crd.{Horreum, HorreumReconciler}
use horreum_operator.Cluster.{Api, M, ◌>>=◌}
use horreum_operator.Status.Truthful.{
  Observation, IsQuiet, IsTruthful, pure-IsTruthful, weaken-IsTruthful, bind-IsTruthful,
  if-IsTruthful,
}
use horreum_operator.Ensure.{CompareFunc, CheckFunc}
use horreum_operator.Ensure.Truthful.{
  KeepsKeys, IsHealthy, IgnoresMeta, IsFaultFinding, ensure_same-IsTruthful,
}
use horreum_operator.Parts.Postgres.{postgres_config_map, postgres_pod, postgres_service}
use horreum_operator.Parts.Keycloak.{keycloak_pod, keycloak_pod_at, keycloak_service}
use horreum_operator.Parts.App.{app_pod, app_service}
use horreum_operator.Parts.Upload.{upload_config}
use horreum_operator.Checks.{
  nocompare, compare_pods, compare_service, compare_config_map, nocheck, check_pod,
}
use horreum_operator.Checks.Faults.{
  nocompare-IgnoresMeta, compare_pods-IgnoresMeta, compare_service-IgnoresMeta,
  compare_config_map-IgnoresMeta, nocheck-IsFaultFinding, check_pod-IsFaultFinding,
}
use horreum_operator.Reconcile.Phases.{
  postgres_disabled, postgres, keep, keycloak_url, set_keycloak_url, set_public_url, record_url,
  non_nil, place_keycloak, keycloak_instance, app_url, app_instance,
}
use horreum_operator.Reconcile.Truthful.Waits.{
  IsPassive, pure-IsPassive, bind-IsPassive, exposed_url-IsPassive, app_route-IsPassive,
}

module _ (api : Api) (r : HorreumReconciler) (cr : Horreum) where
  abbrev pub IsPodHealthy : Observation api → Pod → Type 0
  IsPodHealthy o pod = IsHealthy api o Kind.pod pod (compare_pods api.deep_derivative) check_pod

  abbrev pub IsDatabaseServing : Observation api → Type 0
  IsDatabaseServing o =
      IsHealthy api o Kind.config_map (postgres_config_map cr) compare_config_map nocheck
      × IsPodHealthy o (postgres_pod cr r)
      × IsHealthy api o Kind.service (postgres_service cr) compare_service nocheck

  abbrev pub IsKeycloakServing : String → Observation api → Type 0
  IsKeycloakServing url o =
      (host : String) × (api.parse_request_uri url ≡ some host)
      × IsPodHealthy o (keycloak_pod_at cr host)

  abbrev pub IsAppServing : String → String → Observation api → Type 0
  IsAppServing keycloak_public_url app_public_url o =
      IsPodHealthy o (app_pod cr keycloak_public_url app_public_url)
      × IsHealthy api o Kind.config_map (upload_config cr) nocompare nocheck

  module _ (quiet : IsQuiet api) (keeps : KeepsKeys api) where
    keep-IsTruthful :
        (k : Kind) (object : Resource k) (compare : CompareFunc) (check : CheckFunc)
        → IgnoresMeta k compare
        → IsFaultFinding check
        → IsTruthful api
            (keep api cr k object compare check)
            (λ _ o. IsHealthy api o k object compare check)
    keep-IsTruthful k object compare check blind fault =
        bind-IsTruthful api _ _
          (ensure_same-IsTruthful api cr quiet keeps k object compare check blind fault)
          (λ _. weaken-IsTruthful api (λ _ _ _ h. h) (pure-IsTruthful api tt))

    keep_pod-IsTruthful :
        (pod : Pod)
        → IsTruthful api
            (keep api cr Kind.pod pod (compare_pods api.deep_derivative) check_pod)
            (λ _ o. IsPodHealthy o pod)
    keep_pod-IsTruthful pod =
        keep-IsTruthful Kind.pod pod (compare_pods api.deep_derivative) check_pod
          (compare_pods-IgnoresMeta api.deep_derivative) check_pod-IsFaultFinding

    pub postgres-IsTruthful :
        postgres_disabled cr ≡ false
        → IsTruthful api (postgres api r cr) (λ _ o. IsDatabaseServing o)
    unfolding postgres
    postgres-IsTruthful enabled =
        if-IsTruthful api (postgres_disabled cr)
          (λ disabled. absurd (true≢false (sym disabled ∙ enabled)))
          (λ _.
            bind-IsTruthful api _ _
              (keep-IsTruthful Kind.config_map (postgres_config_map cr) compare_config_map nocheck
                compare_config_map-IgnoresMeta nocheck-IsFaultFinding)
              (λ _. bind-IsTruthful api _ _ (keep_pod-IsTruthful (postgres_pod cr r)) (λ _.
                weaken-IsTruthful api (λ _ _ service pod scripts. (scripts, pod, service))
                  (keep-IsTruthful Kind.service (postgres_service cr) compare_service nocheck
                    compare_service-IgnoresMeta nocheck-IsFaultFinding))))

    record_url-IsPassive :
        (write : String → M api (Unit {0})) (url : Option String)
        → ((u : String) → IsPassive api (write u))
        → IsPassive api (record_url api write url)
    unfolding record_url
    record_url-IsPassive write none h = pure-IsPassive api none
    record_url-IsPassive write (some u) h =
        bind-IsPassive api _ _ (h u) (λ _. pure-IsPassive api (some u))

    pub keycloak_url-IsTruthful :
        (route : Option Route)
        → cr.spec.keycloak.external.public_uri ≡ ""
        → IsTruthful api
            (keycloak_url api r cr route)
            (λ _ o. IsHealthy api o Kind.service (keycloak_service cr r) compare_service nocheck)
    unfolding keycloak_url
    keycloak_url-IsTruthful route internal =
        bind-IsTruthful api _ _
          (if-IsTruthful api (cr.spec.keycloak.external.public_uri == "")
            (λ _.
              bind-IsTruthful api _ _
                (keep-IsTruthful Kind.service (keycloak_service cr r) compare_service nocheck
                  compare_service-IgnoresMeta nocheck-IsFaultFinding)
                (λ _.
                  weaken-IsTruthful api (λ _ _ _ h. h)
                    (exposed_url-IsPassive api quiet keeps cr r cr.spec.keycloak.service_type
                      (keycloak_service cr r) route "Waiting for Keycloak service node port"
                      "Waiting for Keycloak service URL")))
            (λ external. absurd (true≢false (sym ((eq_iff _ "").1 internal) ∙ external))))
          (λ url.
            weaken-IsTruthful api (λ _ _ _ h. h)
              (record_url-IsPassive (set_keycloak_url api) url
                (λ u. record { holds = λ s a e ready. (ready, refl, tt) })))

    pub app_url-IsTruthful :
        IsTruthful api
          (app_url api r cr)
          (λ _ o. IsHealthy api o Kind.service (app_service cr r) compare_service nocheck)
    unfolding app_url
    app_url-IsTruthful =
        bind-IsTruthful api _ _ (app_route-IsPassive api quiet keeps cr r) (λ route.
          bind-IsTruthful api _ _
            (keep-IsTruthful Kind.service (app_service cr r) compare_service nocheck
              compare_service-IgnoresMeta nocheck-IsFaultFinding)
            (λ _.
              bind-IsTruthful api _ _
                (exposed_url-IsPassive api quiet keeps cr r cr.spec.service_type (app_service cr r)
                  route "Waiting for service node port" "Waiting for Horreum service URL")
                (λ url.
                  weaken-IsTruthful api (λ _ _ _ _ h _. h)
                    (record_url-IsPassive (set_public_url api) url
                      (λ u. record { holds = λ s a e ready. (ready, refl, tt) })))))

    place_keycloak-IsTruthful :
        (route : Option Route) (pod : Pod)
        → cr.spec.keycloak.external.public_uri ≡ ""
        → IsTruthful api (place_keycloak api r cr route pod) (λ _ o. IsPodHealthy o pod)
    unfolding place_keycloak
    place_keycloak-IsTruthful route pod internal =
        if-IsTruthful api (cr.spec.keycloak.external.public_uri != "")
          (λ external. absurd (true≢false (sym external ∙ ap not ((eq_iff _ "").1 internal))))
          (λ _. keep_pod-IsTruthful pod)

    pub keycloak_instance-IsTruthful :
        (route : Option Route) (url : String)
        → cr.spec.keycloak.external.public_uri ≡ ""
        → IsTruthful api (keycloak_instance api r cr route url) (λ _ o. IsKeycloakServing url o)
    unfolding keycloak_instance keycloak_pod
    keycloak_instance-IsTruthful route url internal = parsed (api.parse_request_uri url) refl
      where
        parsed :
            (host : Option String)
            → api.parse_request_uri url ≡ host
            → IsTruthful api
                (non_nil api (elim host [ some h ↦ some (keycloak_pod_at cr h) | none ↦ none ])
                  >>= place_keycloak api r cr route)
                (λ _ o. IsKeycloakServing url o)
        parsed none e = record { holds = λ s a crashed ready. cc }
        parsed (some host) e =
            bind-IsTruthful api _ (place_keycloak api r cr route)
              (pure-IsTruthful api (keycloak_pod_at cr host))
              (λ pod.
                weaken-IsTruthful api (λ _ o h same. (host, e, subst (IsPodHealthy o) same h))
                  (place_keycloak-IsTruthful route pod internal))

    pub app_instance-IsTruthful :
        (keycloak_public_url app_public_url : String)
        → IsTruthful api
            (app_instance api cr keycloak_public_url app_public_url)
            (λ _ o. IsAppServing keycloak_public_url app_public_url o)
    unfolding app_instance
    app_instance-IsTruthful keycloak_public_url app_public_url =
        bind-IsTruthful api _ _
          (keep_pod-IsTruthful (app_pod cr keycloak_public_url app_public_url))
          (λ _.
            weaken-IsTruthful api (λ _ _ upload pod. (pod, upload))
              (keep-IsTruthful Kind.config_map (upload_config cr) nocompare nocheck
                (nocompare-IgnoresMeta Kind.config_map) nocheck-IsFaultFinding))
