-- ===== src/Tests/Settled.antt =====
-- A cluster in which everything runs, and a reconciliation that leaves it as it is.
use horreum_operator.Common.{
  String, ◌≡◌, refl, true, some, [], ◌∷◌, inl, inr, arith, eq_iff, string_eq,
}
use horreum_operator.Objects.{key_of, TlsConfig, empty_secret}
use horreum_operator.Cluster.{ok}
use horreum_operator.Routes.{secret_config, termination_of, route_with}
use horreum_operator.Status.Truthful.{observe, IsReady}
use horreum_operator.Parts.Postgres.{
  postgres_config_map, postgres_pod, postgres_service, init_keycloak_script, init_app_script,
}
use horreum_operator.Parts.Keycloak.{keycloak_pod, keycloak_pod_at, keycloak_service}
use horreum_operator.Parts.App.{app_script, app_pod, app_service}
use horreum_operator.Parts.Upload.{upload_config}
use horreum_operator.Common.Int.{itoa}
use horreum_operator.Defaults.{
  db_admin_secret, app_user_secret, keycloak_admin_secret, keycloak_db_secret, horreum_admin_secret,
  db_url, keycloak_internal_url, inner_protocol, db_image, app_image, with_default,
  with_default_int, if_then_else, db_default_host,
}
use horreum_operator.Urls.{get_route_url}
use horreum_operator.Checks.{
  nocompare, compare_pods, compare_service, compare_config_map, compare_route, nocheck,
  check_secret, check_pod, check_route,
}
use horreum_operator.Parts.Service.{service_type, service_port, is_node_port, secret_env}
use horreum_operator.Reconcile.{
  reconcile, lacks_node_host, service_ca_config_map, postgres_disabled, done,
}
use horreum_operator.Reconcile.Serving.{IsServing}
use horreum_operator.Secrets.{user_keys}
use horreum_operator.Checks.Services.{HasKeys}
use horreum_operator.Secrets.Passwords.{IsBounded}
use horreum_operator.Steady.Ensure.{CanOwn}
use horreum_operator.Steady.Settled.{IsSettled}
use horreum_operator.Steady.Request.{reconcile-of-IsSettled}
use horreum_operator.Tests.Laws.{memory_api-IsAnswering}
use horreum_operator.Tests.Memory.{
  memory_api, memory_crypto, memory_api-IsQuiet, memory_api-KeepsKeys, sample, openshift, start,
}
use horreum_operator.Tests.Serving.{ready_pod, held_secret, admitted_route, objects}

memory_api-CanOwn : CanOwn memory_api sample
memory_api-CanOwn m =
    (record m { owner_references = record { name = "horreum"; controller = true } ∷ [] }, refl)

memory_api-IsBounded : IsBounded memory_api
memory_api-IsBounded n w h = h

user_keys_held : (name : String) → HasKeys user_keys (held_secret name).data_map
user_keys_held name = (λ h. cc, (λ h. cc, tt))

objects-IsServing :
    IsServing memory_api memory_crypto openshift sample (observe memory_api (start objects).world)
unfolding db_admin_secret app_user_secret keycloak_admin_secret keycloak_db_secret
    horreum_admin_secret nocompare compare_pods compare_service compare_config_map compare_route
    nocheck check_secret check_pod check_route postgres_config_map postgres_pod postgres_service
    keycloak_pod keycloak_pod_at keycloak_service app_service app_pod upload_config service_type
    service_port is_node_port get_route_url init_keycloak_script init_app_script app_script db_url
    keycloak_internal_url inner_protocol db_image app_image secret_env with_default with_default_int
    itoa if_then_else db_default_host route_with termination_of secret_config
objects-IsServing = record {
  keycloak_public_url = "http://example";
  app_public_url = "http://example";
  keycloak_host = "http://example";
  secrets_held = (
    (held_secret "horreum-db-admin", refl, user_keys_held "horreum-db-admin"),
    (
      (held_secret "horreum-app", refl, (λ h. cc, (λ h. cc, (λ h. cc, tt)))),
      (
        (held_secret "horreum-keycloak-admin", refl, user_keys_held "horreum-keycloak-admin"),
        (
          (held_secret "horreum-keycloak-db", refl, user_keys_held "horreum-keycloak-db"),
          ((held_secret "horreum-admin", refl, user_keys_held "horreum-admin"), tt),
        ),
      ),
    ),
  );
  database_scripts = (postgres_config_map sample, refl, refl, refl);
  database = (ready_pod (postgres_pod sample openshift), refl, refl, refl);
  database_service = (postgres_service sample, refl, refl, refl);
  keycloak_service_there = (keycloak_service sample openshift, refl, refl, refl);
  keycloak_parsed = refl;
  keycloak = (ready_pod (keycloak_pod_at sample "http://example"), refl, refl, refl);
  app_service_there = (app_service sample openshift, refl, refl, refl);
  app = (ready_pod (app_pod sample "http://example" "http://example"), refl, refl, refl);
  upload = (upload_config sample, refl, refl, refl);
}

-- The routes of the cluster.
abbrev edge_config : TlsConfig
edge_config = secret_config "reencrypt" empty_secret

objects-IsSettled :
    IsSettled memory_api memory_crypto openshift sample (observe memory_api (start objects).world)
unfolding db_admin_secret app_user_secret keycloak_admin_secret keycloak_db_secret
    horreum_admin_secret nocompare compare_pods compare_service compare_config_map compare_route
    nocheck check_secret check_pod check_route postgres_config_map postgres_pod postgres_service
    keycloak_pod keycloak_pod_at keycloak_service app_service app_pod upload_config service_type
    service_port is_node_port get_route_url init_keycloak_script init_app_script app_script db_url
    keycloak_internal_url inner_protocol db_image app_image secret_env with_default with_default_int
    itoa if_then_else db_default_host route_with termination_of secret_config objects-IsServing
objects-IsSettled = record {
  serving = objects-IsServing;
  certified = inl (refl, (service_ca_config_map sample, refl, refl, refl));
  tls_secret = empty_secret;
  tls_secret_there = inl (refl, refl);
  tls_config = some edge_config;
  tls_configured = inr (
      inr (
        (λ e. ground (arith, e, eq_iff "" "http")),
        (λ e. ground (arith, e, eq_iff "" "passthrough")),
        ("reencrypt", refl, refl),
      ));
  keycloak_exposed = inr (
    refl,
    (λ e. ground (arith, e, eq_iff "" "LoadBalancer")),
    refl,
    (
      route_with sample.spec.keycloak.route "-keycloak" sample (some edge_config),
      refl,
      (
        (admitted_route "horreum-keycloak", refl, refl, refl),
        refl,
        (λ e. ground (arith, e, eq_iff "http://example" "")),
      ),
    ),
  );
  app_exposed = inr (
    refl,
    (λ e. ground (arith, e, eq_iff "" "LoadBalancer")),
    refl,
    (
      route_with sample.spec.route "" sample (some edge_config),
      refl,
      (
        (admitted_route "horreum", refl, refl, refl),
        refl,
        (λ e. ground (arith, e, eq_iff "http://example" "")),
      ),
    ),
  );
}

reconcile-of-IsSettled_example :
    ((reconcile memory_api memory_crypto openshift (key_of sample.metadata) (start objects)).0
      ≡ ok done)
    × IsReady
        (reconcile memory_api memory_crypto openshift
          (key_of sample.metadata)
          (start objects)).1.status
    × (observe memory_api
          (reconcile memory_api memory_crypto openshift
            (key_of sample.metadata)
            (start objects)).1.world
        ≡ observe memory_api (start objects).world)
unfolding postgres_disabled lacks_node_host is_node_port
reconcile-of-IsSettled_example =
    reconcile-of-IsSettled memory_api memory_crypto openshift sample memory_api-IsQuiet
      memory_api-IsAnswering memory_api-KeepsKeys memory_api-CanOwn memory_api-IsBounded refl refl
      (inr (inr refl)) refl (key_of sample.metadata) (start objects) refl objects-IsSettled
