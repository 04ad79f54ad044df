-- ===== src/Steady/Phases.antt =====
-- The phases of `Reconcile` over objects that are all there.
use horreum_operator.Common.{
  String, ◌≡◌, refl, sym, ap, ◌∙◌, false, ◌==◌, ◌!=◌, not, Option, none, some, List, [], ◌∷◌, ◌++◌,
  string_eq, eq_iff,
}
use mathlib.Core.Path.{subst}
use horreum_operator.Objects.{Kind, Secret, Route, Pod, key_of}
use horreum_operator.Crd.{Horreum, HorreumReconciler}
use horreum_operator.Cluster.{Api, M, pure, ◌>>=◌, ◌>>◌}
use horreum_operator.Status.Truthful.{Observation, IsQuiet}
use horreum_operator.Ensure.Truthful.{KeepsKeys, IsHealthy}
use horreum_operator.Secrets.{user_keys, new_secret}
use horreum_operator.Secrets.Passwords.{IsBounded}
use horreum_operator.Defaults.{
  db_admin_secret, app_user_secret, keycloak_db_secret, keycloak_admin_secret, horreum_admin_secret,
}
use horreum_operator.Parts.Wiring.References.{managed_secrets}
use horreum_operator.Parts.Postgres.{postgres_config_map, postgres_pod, postgres_service}
use horreum_operator.Parts.Keycloak.{keycloak_pod, keycloak_pod_at, keycloak_service}
use horreum_operator.Parts.App.{app_pod}
use horreum_operator.Parts.Upload.{upload_config}
use horreum_operator.Checks.{
  nocompare, compare_pods, compare_service, compare_config_map, nocheck, check_pod, check_secret,
}
use horreum_operator.Checks.Services.{check_secret_iff}
use horreum_operator.Checks.Faults.{
  nocompare-IgnoresMeta, compare_pods-IgnoresMeta, compare_service-IgnoresMeta,
  compare_config_map-IgnoresMeta,
}
use horreum_operator.Reconcile.{
  postgres_disabled, keep_secret, add_db_secret, secrets, keep, postgres, keycloak_url,
  set_keycloak_url, non_nil, place_keycloak, keycloak_instance, app_instance,
}
use horreum_operator.Reconcile.Truthful.{IsHeld, AreHeld}
use horreum_operator.Reconcile.Serving.Deployed.{IsPodHealthy, IsDatabaseServing, IsAppServing}
use horreum_operator.Steady.{
  IsSteady, Steady, pure-IsSteady, then-IsSteady, else-IsSteady, bind-IsSteady, after-IsSteady,
}
use horreum_operator.Steady.Ensure.{CanOwn}
use horreum_operator.Steady.Values.{generate_password-Steady, new_secret-IsSteady}
use horreum_operator.Steady.Exposed.{
  IsExposed, keep-Steady, exposed_url-IsSteady, record_url-IsSteady,
}

module _ (api : Api) (o : Observation api) (quiet : IsQuiet api) (cr : Horreum)
    (keeps : KeepsKeys api) (owns : CanOwn api cr) where
  keep_secret-Steady :
      (name : String) (secret : Secret) (keys : List String)
      → IsHeld api o (record { namespace = cr.metadata.namespace; name = name }) keys
      → key_of secret.metadata ≡ record { namespace = cr.metadata.namespace; name = name }
      → Steady api o (keep_secret api cr secret keys)
  unfolding keep_secret nocompare
  keep_secret-Steady name secret keys (out, there, has) named =
      keep-Steady api o quiet cr keeps owns Kind.secret secret nocompare (check_secret keys)
        (nocompare-IgnoresMeta Kind.secret)
        (out, ap (o Kind.secret) named ∙ there, refl, (check_secret_iff keys out).1 has)

  module _ (bounded : IsBounded api) where
    -- A secret that is made and not needed.
    spare_secret-Steady :
        (name : String) (keys : List String) (rest : M api (Unit {0}))
        → IsHeld api o (record { namespace = cr.metadata.namespace; name = name }) keys
        → Steady api o rest
        → Steady api o (new_secret api cr name >>= λ s. keep_secret api cr s keys >> rest)
    spare_secret-Steady name keys rest held h =
        bind-IsSteady api o _ _ _ (new_secret-IsSteady api o quiet bounded cr name)
          (λ s named. after-IsSteady api o _ _ (keep_secret-Steady name s keys held named) (λ _. h))

    pub secrets-Steady :
        AreHeld api o cr.metadata.namespace (managed_secrets cr) → Steady api o (secrets api cr)
    unfolding secrets add_db_secret
    secrets-Steady (db_admin, (app, (keycloak_admin, (keycloak_db, (horreum_admin, _))))) =
        spare_secret-Steady (db_admin_secret cr) user_keys _ db_admin (
          bind-IsSteady api o _ _ _
            (new_secret-IsSteady api o quiet bounded cr (app_user_secret cr))
            (λ s named.
              after-IsSteady api o _ _ (generate_password-Steady api o quiet bounded) (λ password.
                after-IsSteady api o _ _
                  (keep_secret-Steady (app_user_secret cr) (add_db_secret s password)
                    (user_keys ++ ("dbsecret" ∷ [])) app named)
                  (λ _. spare_secret-Steady (keycloak_admin_secret cr) user_keys _ keycloak_admin (
                    spare_secret-Steady (keycloak_db_secret cr) user_keys _ keycloak_db (
                      bind-IsSteady api o _ _ _
                        (new_secret-IsSteady api o quiet bounded cr (horreum_admin_secret cr))
                        (λ s' named'.
                          keep_secret-Steady (horreum_admin_secret cr) s' user_keys horreum_admin
                            named')))))))

  keep_pod-Steady :
      (r : HorreumReconciler) (pod : Pod)
      → IsPodHealthy api r cr o pod
      → Steady api o (keep api cr Kind.pod pod (compare_pods api.deep_derivative) check_pod)
  keep_pod-Steady r pod =
      keep-Steady api o quiet cr keeps owns Kind.pod pod (compare_pods api.deep_derivative)
        check_pod (compare_pods-IgnoresMeta api.deep_derivative)

  module _ (r : HorreumReconciler) where
    pub postgres-Steady :
        postgres_disabled cr ≡ false
        → IsDatabaseServing api r cr o
        → Steady api o (postgres api r cr)
    unfolding postgres
    postgres-Steady enabled (scripts, pod, service) =
        else-IsSteady api o (postgres_disabled cr) _ _ enabled (
          after-IsSteady api o _ _
            (keep-Steady api o quiet cr keeps owns Kind.config_map (postgres_config_map cr)
              compare_config_map nocheck compare_config_map-IgnoresMeta scripts)
            (λ _. after-IsSteady api o _ _ (keep_pod-Steady r (postgres_pod cr r) pod) (λ _.
              keep-Steady api o quiet cr keeps owns Kind.service (postgres_service cr)
                compare_service nocheck compare_service-IgnoresMeta service)))

    pub keycloak_url-IsSteady :
        (route : Option Route) (url : String)
        → cr.spec.keycloak.external.public_uri ≡ ""
        → IsHealthy api o Kind.service (keycloak_service cr r) compare_service nocheck
        → IsExposed api o r cr cr.spec.keycloak.service_type (keycloak_service cr r) route url
        → IsSteady api o (keycloak_url api r cr route) (λ u. u ≡ some url)
    unfolding keycloak_url
    keycloak_url-IsSteady route url internal service exposed =
        bind-IsSteady api o (λ u. u ≡ some url) _ _
          (then-IsSteady api o (cr.spec.keycloak.external.public_uri == "") _ _
            ((eq_iff _ "").1 internal)
            (after-IsSteady api o _ _
              (keep-Steady api o quiet cr keeps owns Kind.service (keycloak_service cr r)
                compare_service nocheck compare_service-IgnoresMeta service)
              (λ _.
                exposed_url-IsSteady api o quiet cr keeps owns r cr.spec.keycloak.service_type
                  (keycloak_service cr r) route "Waiting for Keycloak service node port"
                  "Waiting for Keycloak service URL" url exposed)))
          (λ u.
            record_url-IsSteady api o quiet cr keeps owns (set_keycloak_url api) url
              (record { stays = λ s seen ready. (tt, refl, tt, seen, ready) }) u)

    pub app_instance-Steady :
        (keycloak_public_url app_public_url : String)
        → IsAppServing api r cr keycloak_public_url app_public_url o
        → Steady api o (app_instance api cr keycloak_public_url app_public_url)
    unfolding app_instance
    app_instance-Steady keycloak_public_url app_public_url (pod, upload) =
        after-IsSteady api o _ _
          (keep_pod-Steady r (app_pod cr keycloak_public_url app_public_url) pod)
          (λ _.
            keep-Steady api o quiet cr keeps owns Kind.config_map (upload_config cr) nocompare
              nocheck (nocompare-IgnoresMeta Kind.config_map) upload)

    pub keycloak_instance-Steady :
        (route : Option Route) (url host : String)
        → cr.spec.keycloak.external.public_uri ≡ ""
        → api.parse_request_uri url ≡ some host
        → IsPodHealthy api r cr o (keycloak_pod_at cr host)
        → Steady api o (keycloak_instance api r cr route url)
    unfolding keycloak_instance keycloak_pod place_keycloak
    keycloak_instance-Steady route url host internal parsed pod =
        at (api.parse_request_uri url) parsed
      where
        placed :
            (p : Pod) → p ≡ keycloak_pod_at cr host → Steady api o (place_keycloak api r cr route p)
        placed p same =
            else-IsSteady api o (cr.spec.keycloak.external.public_uri != "") _ _
              (ap not ((eq_iff _ "").1 internal))
              (keep_pod-Steady r p (subst (IsPodHealthy api r cr o) (sym same) pod))

        at :
            (parsed_host : Option String)
            → parsed_host ≡ some host
            → Steady api o (
                non_nil api
                  (elim parsed_host [ some h ↦ some (keycloak_pod_at cr h) | none ↦ none ])
                >>= place_keycloak api r cr route)
        at parsed_host e = rw e (
            bind-IsSteady api o (λ p. p ≡ keycloak_pod_at cr host) (pure (keycloak_pod_at cr host))
              (place_keycloak api r cr route) (pure-IsSteady api o _ _ refl) placed)
