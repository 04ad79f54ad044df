-- ===== src/Tests/Serving.antt =====
-- A reconciliation of a cluster in which everything runs.
use horreum_operator.Common.{String, refl, none, List, [], ◌∷◌}
use horreum_operator.Objects.{
  Object, pod_object, service_object, secret_object, config_map_object, route_object, Pod, Secret,
  Route, empty_meta, empty_secret, empty_route,
}
use horreum_operator.Cluster.{Outcome, State}
use horreum_operator.Status.Truthful.{observe}
use horreum_operator.Parts.Postgres.{
  postgres_config_map, postgres_pod, postgres_service, init_keycloak_script, init_app_script,
}
use horreum_operator.Parts.Keycloak.{keycloak_pod, keycloak_pod_at, keycloak_service}
use horreum_operator.Parts.App.{app_script, app_pod, app_service}
use horreum_operator.Parts.Upload.{upload_config}
use horreum_operator.Common.Int.{itoa}
use horreum_operator.Defaults.{
  db_admin_secret, app_user_secret, keycloak_admin_secret, keycloak_db_secret, horreum_admin_secret,
  db_url, keycloak_internal_url, inner_protocol, db_image, app_image, with_default,
  with_default_int, if_then_else, db_default_host,
}
use horreum_operator.Status.{publish, next_status, set_status, keeps_error}
use horreum_operator.Ensure.{ensure_same}
use horreum_operator.Secrets.{new_secret, fill}
use horreum_operator.Routes.{keycloak_route, app_route, tls, route}
use horreum_operator.Urls.{get_route_url}
use horreum_operator.Checks.{
  nocompare, compare_pods, compare_service, compare_config_map, compare_route, nocheck,
  check_secret, check_pod, check_route,
}
use horreum_operator.Parts.Service.{service_type, service_port, is_node_port, secret_env}
use horreum_operator.Reconcile.{
  service_ca_config_map, start_status, certificates, secrets, postgres, postgres_disabled,
  keycloak_url, record_url, exposed_url, keycloak_instance, app_url, app_instance, Result,
  reconcile_valid,
}
use horreum_operator.Reconcile.Serving.{IsServing, reconcile_valid-IsServing}
use horreum_operator.Tests.Memory.{
  Fault, memory_api, memory_crypto, memory_api-IsQuiet, memory_api-KeepsKeys, sample, openshift,
  start,
}

abbrev pub ready_pod : Pod → Pod
ready_pod pod = record pod {
  status = record {
    container_statuses = [];
    conditions = record { type = "Ready"; status = "True" } ∷ [];
  };
}

abbrev running : Pod → Object
running pod = pod_object (ready_pod pod)

abbrev pub held_secret : String → Secret
held_secret name = record empty_secret {
  metadata = record empty_meta { name = name; namespace = "perf" };
  data_map = ("username", "u") ∷ ("password", "p") ∷ ("dbsecret", "d") ∷ [];
}

abbrev held : String → Object
held name = secret_object (held_secret name)

abbrev pub admitted_route : String → Route
admitted_route name = record empty_route {
  metadata = record empty_meta { name = name; namespace = "perf" };
  spec = record {
    host = "";
    subdomain = name;
    to = record { kind = "Service"; name = name };
    tls = none;
  };
  ingress =
      record { host = "example"; conditions = record { type = "Admitted"; status = "True" } ∷ [] }
      ∷ [];
}

abbrev admitted : String → Object
admitted name = route_object (admitted_route name)

abbrev pub objects : List Object
objects =
    config_map_object (service_ca_config_map sample)
    ∷ held "horreum-db-admin"
    ∷ held "horreum-app"
    ∷ held "horreum-keycloak-admin"
    ∷ held "horreum-keycloak-db"
    ∷ held "horreum-admin"
    ∷ config_map_object (postgres_config_map sample)
    ∷ running (postgres_pod sample openshift)
    ∷ service_object (postgres_service sample)
    ∷ service_object (keycloak_service sample openshift)
    ∷ admitted "horreum-keycloak"
    ∷ running (keycloak_pod_at sample "http://example")
    ∷ service_object (app_service sample openshift)
    ∷ admitted "horreum"
    ∷ running (app_pod sample "http://example" "http://example")
    ∷ config_map_object (upload_config sample)
    ∷ []

-- The reconciliation with all that it runs through.
outcome : Outcome Fault Result × State memory_api
unfolding reconcile_valid start_status certificates secrets postgres postgres_disabled keycloak_url
    record_url exposed_url keycloak_instance app_url app_instance ensure_same new_secret fill
    keycloak_route app_route publish db_admin_secret app_user_secret keycloak_admin_secret
    keycloak_db_secret horreum_admin_secret nocompare compare_pods compare_service
    compare_config_map compare_route nocheck check_secret check_pod check_route postgres_config_map
    postgres_pod postgres_service keycloak_pod keycloak_pod_at keycloak_service app_service app_pod
    upload_config service_type service_port is_node_port get_route_url tls route
    init_keycloak_script init_app_script app_script db_url keycloak_internal_url inner_protocol
    db_image app_image secret_env with_default with_default_int itoa if_then_else db_default_host
    next_status set_status keeps_error
outcome = reconcile_valid memory_api memory_crypto openshift sample (start objects)

reconcile_valid-IsServing_example : IsServing memory_api memory_crypto openshift sample (
    observe memory_api
      (reconcile_valid memory_api memory_crypto openshift sample (start objects)).1.world)
unfolding outcome
reconcile_valid-IsServing_example =
    reconcile_valid-IsServing memory_api memory_crypto openshift sample memory_api-IsQuiet
      memory_api-KeepsKeys refl refl (start objects) refl refl
