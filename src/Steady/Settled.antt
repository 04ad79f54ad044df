-- ===== src/Steady/Settled.antt =====
-- A reconciliation of a cluster in which everything runs and is reached from outside.
use horreum_operator.Common.{String, ◌≡◌, refl, ap, ◌∙◌, false, Option, some, string_eq}
use horreum_operator.Objects.{Kind, Secret, Route, TlsConfig}
use horreum_operator.Crd.{Horreum, HorreumReconciler}
use horreum_operator.Cluster.{Api, State, M, ok, >>=-of-ok, ◌>>=◌, ◌>>◌}
use horreum_operator.Status.{publish}
use horreum_operator.Status.Truthful.{Observation, observe, IsReady, IsQuiet}
use horreum_operator.Ensure.Truthful.{KeepsKeys}
use horreum_operator.Secrets.Passwords.{IsBounded}
use horreum_operator.Parts.Keycloak.{keycloak_service}
use horreum_operator.Parts.App.{app_service}
use horreum_operator.Checks.{compare_service, nocheck}
use horreum_operator.Checks.Faults.{compare_service-IgnoresMeta}
use horreum_operator.Certs.{Crypto}
use horreum_operator.Routes.{keycloak_route}
use horreum_operator.Reconcile.{
  postgres_disabled, start_status, certificates, secrets, postgres, keycloak_url, set_public_url,
  app_url, Result, done, finish, with_keycloak, reconcile_valid,
}
use horreum_operator.Reconcile.Serving.{IsServing}
use horreum_operator.Reconcile.Start.{start_status-cases, start_status-observe}
use horreum_operator.Steady.{IsSteady, Steady, pure-IsSteady, bind-IsSteady, after-IsSteady}
use horreum_operator.Steady.Ensure.{CanOwn}
use horreum_operator.Steady.Routing.{
  IsTlsSecret, IsTlsConfig, IsKeycloakRouteType, planned_route, app_route-IsSteady,
  keycloak_route-IsSteady,
}
use horreum_operator.Steady.Exposed.{
  IsExposed, keep-Steady, exposed_url-IsSteady, record_url-IsSteady,
}
use horreum_operator.Steady.Certified.{IsCertified, certificates-Steady}
use horreum_operator.Steady.Phases.{
  secrets-Steady, postgres-Steady, keycloak_url-IsSteady, keycloak_instance-Steady,
  app_instance-Steady,
}

module _ (api : Api) (crypto : Crypto api) (r : HorreumReconciler) (cr : Horreum) where
  -- Everything runs, the certificates are there, and Keycloak and the application are reached under
  -- the URLs that they are built for.
  pub record IsSettled (o : Observation api) : Type 0 where
    pub serving : IsServing api crypto r cr o
    pub certified : IsCertified api crypto o r cr
    pub tls_secret : Secret
    pub tls_secret_there : IsTlsSecret api o cr tls_secret
    pub tls_config : Option TlsConfig
    pub tls_configured : IsTlsConfig cr tls_secret tls_config
    pub keycloak_exposed :
        IsExposed api o r cr cr.spec.keycloak.service_type
          (keycloak_service cr r)
          (planned_route r cr cr.spec.keycloak.route "-keycloak" tls_config)
          serving.keycloak_public_url
    pub app_exposed :
        IsExposed api o r cr cr.spec.service_type
          (app_service cr r)
          (planned_route r cr cr.spec.route "" tls_config)
          serving.app_public_url

  module _ (o : Observation api) (quiet : IsQuiet api) (keeps : KeepsKeys api)
      (owns : CanOwn api cr) (bounded : IsBounded api) (settled : IsSettled o) where
    app_url-IsSteady :
        IsSteady api o (app_url api r cr) (λ u. u ≡ some settled.serving.app_public_url)
    unfolding app_url
    app_url-IsSteady =
        bind-IsSteady api o _ _ _
          (app_route-IsSteady api o quiet cr settled.tls_secret settled.tls_secret_there
            settled.tls_config settled.tls_configured r)
          (λ route planned.
            after-IsSteady api o _ _
              (keep-Steady api o quiet cr keeps owns Kind.service (app_service cr r) compare_service
                nocheck compare_service-IgnoresMeta settled.serving.app_service_there)
              (λ _.
                bind-IsSteady api o _ _ _
                  (exposed_url-IsSteady api o quiet cr keeps owns r cr.spec.service_type
                    (app_service cr r) route "Waiting for service node port"
                    "Waiting for Horreum service URL" settled.serving.app_public_url
                    (rw planned settled.app_exposed))
                  (λ u.
                    record_url-IsSteady api o quiet cr keeps owns (set_public_url api)
                      settled.serving.app_public_url
                      (record { stays = λ s seen ready. (tt, refl, tt, seen, ready) }) u)))

    publish-Steady : Steady api o (publish api cr)
    unfolding publish
    publish-Steady = record {
      stays = λ s seen ready. (
        tt,
        refl,
        tt,
        quiet.update_quiet (record cr { status = s.status }) s.world ∙ seen,
        ready,
      );
    }

    finish-IsSteady :
        (url : Option String)
        → url ≡ some settled.serving.app_public_url
        → IsSteady api o
            (finish api crypto r cr settled.serving.keycloak_public_url url)
            (λ result. result ≡ done)
    unfolding finish
    finish-IsSteady url known =
        let finished : IsSteady api o
            (finish api crypto r cr settled.serving.keycloak_public_url
              (some settled.serving.app_public_url))
            (λ result. result ≡ done) =
          after-IsSteady api o _ _
            (app_instance-Steady api o quiet cr keeps owns r settled.serving.keycloak_public_url
              settled.serving.app_public_url (settled.serving.app, settled.serving.upload))
            (λ _. after-IsSteady api o _ _ publish-Steady (λ _. pure-IsSteady api o _ done refl)) in
        rw known finished

    with_keycloak-IsSteady :
        cr.spec.keycloak.external.public_uri ≡ ""
        → (route : Option Route) (url : Option String)
        → url ≡ some settled.serving.keycloak_public_url
        → IsSteady api o (with_keycloak api crypto r cr route url) (λ result. result ≡ done)
    unfolding with_keycloak
    with_keycloak-IsSteady internal route url known =
        let continued : IsSteady api o
            (with_keycloak api crypto r cr route (some settled.serving.keycloak_public_url))
            (λ result. result ≡ done) =
          after-IsSteady api o _ _
            (keycloak_instance-Steady api o quiet cr keeps owns r route
              settled.serving.keycloak_public_url settled.serving.keycloak_host internal
              settled.serving.keycloak_parsed settled.serving.keycloak)
            (λ _. bind-IsSteady api o _ _ _ app_url-IsSteady finish-IsSteady) in
        rw known continued

    -- All that follows `start_status`.
    abbrev settled_phases : M api Result
    settled_phases = do
      certificates api crypto r cr
      secrets api cr
      postgres api r cr
      route ← keycloak_route api cr r
      url ← keycloak_url api r cr route
      with_keycloak api crypto r cr route url

    settled_phases-IsSteady :
        postgres_disabled cr ≡ false
        → cr.spec.keycloak.external.public_uri ≡ ""
        → IsKeycloakRouteType cr.spec.keycloak.route.type
        → IsSteady api o settled_phases (λ result. result ≡ done)
    settled_phases-IsSteady enabled internal valid =
        after-IsSteady api o _ _
          (certificates-Steady api crypto o quiet cr keeps owns r settled.certified)
          (λ _.
            after-IsSteady api o _ _
              (secrets-Steady api o quiet cr keeps owns bounded settled.serving.secrets_held)
              (λ _.
                after-IsSteady api o _ _
                  (postgres-Steady api o quiet cr keeps owns r enabled (
                    settled.serving.database_scripts, settled.serving.database,
                    settled.serving.database_service,
                  ))
                  (λ _.
                    bind-IsSteady api o _ _ _
                      (keycloak_route-IsSteady api o quiet cr settled.tls_secret
                        settled.tls_secret_there settled.tls_config settled.tls_configured r valid)
                      (λ route planned.
                        bind-IsSteady api o _ _ _
                          (keycloak_url-IsSteady api o quiet cr keeps owns r route
                            settled.serving.keycloak_public_url internal
                            settled.serving.keycloak_service_there
                            (rw planned settled.keycloak_exposed))
                          (λ url known. with_keycloak-IsSteady internal route url known)))))

-- If everything runs, with its certificates, and is reached under the URLs that it is built for, a
-- reconciliation that deploys both the database and Keycloak is done, whatever the status was: it
-- changes no object and leaves the status `Ready`; provided that the type of the Keycloak route is
-- valid, no one else changes an object meanwhile, owner references can be set and keep an object's
-- name, and random numbers lie below their bound.
pub reconcile_valid-of-IsSettled :
    (api : Api) (crypto : Crypto api) (r : HorreumReconciler) (cr : Horreum)
    → IsQuiet api
    → KeepsKeys api
    → CanOwn api cr
    → IsBounded api
    → postgres_disabled cr ≡ false
    → cr.spec.keycloak.external.public_uri ≡ ""
    → IsKeycloakRouteType cr.spec.keycloak.route.type
    → (s : State api) → IsSettled api crypto r cr (observe api s.world)
    → ((reconcile_valid api crypto r cr s).0 ≡ ok done)
      × IsReady (reconcile_valid api crypto r cr s).1.status
      × (observe api (reconcile_valid api crypto r cr s).1.world ≡ observe api s.world)
unfolding reconcile_valid
reconcile_valid-of-IsSettled api crypto r cr quiet keeps owns bounded enabled internal valid s
      settled =
    let o = observe api s.world in
    let (started, ready, _) = start_status-cases api cr s in
    let seen = start_status-observe api cr quiet s in
    let (result, e, is_done, seen', ready') =
      (settled_phases-IsSteady api crypto r cr o quiet keeps owns bounded settled enabled internal
          valid).stays
        (start_status api cr s).1 seen ready in
    rw
      (>>=-of-ok (start_status api cr)
        (λ _. settled_phases api crypto r cr o quiet keeps owns bounded settled) s started)
      (e ∙ ap ok is_done, ready', seen')
