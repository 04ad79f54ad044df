-- ===== src/Reconcile/Serving.antt =====
-- What `Ready` means at the end of a reconciliation.
pub mod Deployed
use horreum_operator.Common.{
  String, ◌≡◌, refl, sym, ◌∙◌, ap, false, ◌==◌, ◌!=◌, Option, none, some, string_eq, eq_iff,
}
use mathlib.Core.Path.{subst}
use mathlib.Core.Bool.{true≢false, not}
use horreum_operator.Objects.{Kind, Resource, Route, Pod}
use horreum_operator.Crd.{Horreum, HorreumReconciler}
use horreum_operator.Cluster.{Api, State, M, ok, >>=-eq-ok, ◌>>=◌, ◌>>◌}
use horreum_operator.Status.{publish}
use horreum_operator.Status.Truthful.{
  Observation, observe, IsReady, IsQuiet, IsTruthful, pure-IsTruthful, weaken-IsTruthful,
  bind-IsTruthful, if-IsTruthful,
}
use horreum_operator.Ensure.{CompareFunc, CheckFunc}
use horreum_operator.Ensure.Truthful.{
  KeepsKeys, IsHealthy, IgnoresMeta, IsFaultFinding, ensure_same-IsTruthful,
}
use horreum_operator.Parts.Postgres.{postgres_config_map, postgres_pod, postgres_service}
use horreum_operator.Parts.Keycloak.{keycloak_pod, keycloak_pod_at, keycloak_service}
use horreum_operator.Parts.App.{app_pod, app_service}
use horreum_operator.Parts.Upload.{upload_config}
use horreum_operator.Parts.Wiring.References.{managed_secrets}
use horreum_operator.Checks.{
  nocompare, compare_pods, compare_service, compare_config_map, nocheck, check_pod,
}
use horreum_operator.Checks.Faults.{
  nocompare-IgnoresMeta, compare_pods-IgnoresMeta, compare_service-IgnoresMeta,
  compare_config_map-IgnoresMeta, nocheck-IsFaultFinding, check_pod-IsFaultFinding,
}
use horreum_operator.Certs.{Crypto}
use horreum_operator.Routes.{keycloak_route}
use horreum_operator.Reconcile.Phases.{
  postgres_disabled, start_status, certificates, secrets, postgres, keep, keycloak_url,
  set_keycloak_url, set_public_url, record_url, non_nil, place_keycloak, keycloak_instance, app_url,
  app_instance,
}
use horreum_operator.Reconcile.{Result, done, requeue, finish, with_keycloak, reconcile_valid}
use horreum_operator.Reconcile.Truthful.{AreHeld, secrets-IsTruthful}
use horreum_operator.Reconcile.Truthful.Waits.{
  IsPassive, pure-IsPassive, bind-IsPassive, exposed_url-IsPassive, keycloak_route-IsPassive,
  app_route-IsPassive,
}
use horreum_operator.Reconcile.Serving.Deployed.{
  IsPodHealthy, IsKeycloakServing, IsAppServing, postgres-IsTruthful, keycloak_url-IsTruthful,
  app_url-IsTruthful, keycloak_instance-IsTruthful, app_instance-IsTruthful,
}

module _ (api : Api) (crypto : Crypto api) (r : HorreumReconciler) (cr : Horreum) where
  -- Everything that runs for the custom resource: the secrets with their keys, and each object as
  -- the operator builds it for two URLs, matching and well.
  pub record IsServing (o : Observation api) : Type 0 where
    pub keycloak_public_url : String
    pub app_public_url : String
    pub keycloak_host : String
    pub secrets_held : AreHeld api o cr.metadata.namespace (managed_secrets cr)
    pub database_scripts :
        IsHealthy api o Kind.config_map (postgres_config_map cr) compare_config_map nocheck
    pub database : IsPodHealthy api r cr o (postgres_pod cr r)
    pub database_service :
        IsHealthy api o Kind.service (postgres_service cr) compare_service nocheck
    pub keycloak_service_there :
        IsHealthy api o Kind.service (keycloak_service cr r) compare_service nocheck
    pub keycloak_parsed : api.parse_request_uri keycloak_public_url ≡ some keycloak_host
    pub keycloak : IsPodHealthy api r cr o (keycloak_pod_at cr keycloak_host)
    pub app_service_there : IsHealthy api o Kind.service (app_service cr r) compare_service nocheck
    pub app : IsPodHealthy api r cr o (app_pod cr keycloak_public_url app_public_url)
    pub upload : IsHealthy api o Kind.config_map (upload_config cr) nocompare nocheck

  module _ (quiet : IsQuiet api) (keeps : KeepsKeys api) where
    publish-IsPassive : IsPassive api (publish api cr)
    unfolding publish
    publish-IsPassive = record {
      holds =
          λ s a e ready. (ready, quiet.update_quiet (record cr { status = s.status }) s.world, tt);
    }

    finish-IsTruthful :
        (keycloak_public_url : String) (url : Option String)
        → IsTruthful api (finish api crypto r cr keycloak_public_url url) (λ result o.
          result ≡ done → (u : String) × IsAppServing api r cr keycloak_public_url u o)
    unfolding finish
    finish-IsTruthful keycloak_public_url none =
        weaken-IsTruthful api (λ _ _ e d. cc) (pure-IsTruthful api requeue)
    finish-IsTruthful keycloak_public_url (some u) =
        bind-IsTruthful api _ _ (app_instance-IsTruthful api r cr quiet keeps keycloak_public_url u)
          (λ _. bind-IsTruthful api _ _ publish-IsPassive (λ _.
            weaken-IsTruthful api (λ _ _ _ _ serving _. (u, serving)) (pure-IsTruthful api done)))

    -- What holds from the URL of Keycloak on.
    abbrev IsFrontServing : Observation api → Type 0
    IsFrontServing o =
        (keycloak_public_url app_public_url : String) × IsKeycloakServing api r cr
          keycloak_public_url o
        × IsHealthy api o Kind.service (app_service cr r) compare_service nocheck
        × IsAppServing api r cr keycloak_public_url app_public_url o

    with_keycloak-IsTruthful :
        (route : Option Route) (url : Option String)
        → cr.spec.keycloak.external.public_uri ≡ ""
        → IsTruthful api
            (with_keycloak api crypto r cr route url)
            (λ result o. result ≡ done → IsFrontServing o)
    unfolding with_keycloak
    with_keycloak-IsTruthful route none internal =
        weaken-IsTruthful api (λ _ _ e d. cc) (pure-IsTruthful api requeue)
    with_keycloak-IsTruthful route (some url) internal =
        bind-IsTruthful api _ _
          (keycloak_instance-IsTruthful api r cr quiet keeps route url internal)
          (λ _. bind-IsTruthful api _ _ (app_url-IsTruthful api r cr quiet keeps) (λ u.
            weaken-IsTruthful api
              (λ _ o app service keycloak d.
                let (v, serving) = app d in (url, v, keycloak, service, serving))
              (finish-IsTruthful url u)))

    -- The phases after the certificates.
    serving_phases : M api Result
    serving_phases = do
      secrets api cr
      postgres api r cr
      route ← keycloak_route api cr r
      url ← keycloak_url api r cr route
      with_keycloak api crypto r cr route url

    serving_phases-IsTruthful :
        postgres_disabled cr ≡ false
        → cr.spec.keycloak.external.public_uri ≡ ""
        → IsTruthful api serving_phases (λ result o. result ≡ done → IsServing o)
    unfolding serving_phases
    serving_phases-IsTruthful enabled internal =
        bind-IsTruthful api _ _ (secrets-IsTruthful api quiet keeps cr) (λ _.
          bind-IsTruthful api _ _ (postgres-IsTruthful api r cr quiet keeps enabled) (λ _.
            bind-IsTruthful api _ _ (keycloak_route-IsPassive api quiet keeps cr r) (λ route.
              bind-IsTruthful api _ _ (keycloak_url-IsTruthful api r cr quiet keeps route internal)
                (λ url.
                  weaken-IsTruthful api
                    (λ _ o front service _ database held d.
                      let (k, a, (host, parsed, pod), app_there, (app, up)) = front d in
                      record {
                        keycloak_public_url = k;
                        app_public_url = a;
                        keycloak_host = host;
                        secrets_held = held;
                        database_scripts = database.0;
                        database = database.1;
                        database_service = database.2;
                        keycloak_service_there = service;
                        keycloak_parsed = parsed;
                        keycloak = pod;
                        app_service_there = app_there;
                        app = app;
                        upload = up;
                      })
                    (with_keycloak-IsTruthful route url internal)))))

-- If a reconciliation that deploys both the database and Keycloak is done and leaves the status
-- `Ready`, then at its end every managed secret is there with its keys, and the three pods, their three
-- services and the config maps of the database and of the upload script are there, compare as equal to
-- what the operator builds for the URLs and pass their checks; provided that no one else changes an
-- object meanwhile and an owner reference keeps an object's name.
pub reconcile_valid-IsServing :
    (api : Api) (crypto : Crypto api) (r : HorreumReconciler) (cr : Horreum)
    → IsQuiet api
    → KeepsKeys api
    → postgres_disabled cr ≡ false
    → cr.spec.keycloak.external.public_uri ≡ ""
    → (s : State api) → (reconcile_valid api crypto r cr s).0 ≡ ok done
    → IsReady (reconcile_valid api crypto r cr s).1.status
    → IsServing api crypto r cr (observe api (reconcile_valid api crypto r cr s).1.world)
unfolding reconcile_valid serving_phases
reconcile_valid-IsServing api crypto r cr quiet keeps enabled internal s e ready =
    let (_, _, start) =
      >>=-eq-ok (start_status api cr)
        (λ _. certificates api crypto r cr >> serving_phases api crypto r cr quiet keeps) s e in
    let s1 = (start_status api cr s).1 in
    let (_, _, certs) =
      >>=-eq-ok (certificates api crypto r cr) (λ _. serving_phases api crypto r cr quiet keeps) s1
        (rw start at e) in
    rw (start, certs)
      (((serving_phases-IsTruthful api crypto r cr quiet keeps enabled internal).holds
          (certificates api crypto r cr s1).1 done (rw (start, certs) at e)
          (rw (start, certs) at ready)).2
        refl)
