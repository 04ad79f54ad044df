-- ===== src/Tests/Checks.antt =====
-- The comparisons and the checks at small objects.
use horreum_operator.Common.{refl, ◌≡◌, ◌≢◌, ◌↔◌, ◌⊎◌, true, false, none, some, [], ◌∷◌, All}
use horreum_operator.Objects.{
  Pod, Service, Secret, ConfigMap, Route, pod_object, service_object, secret_object,
  config_map_object, route_object, empty_secret, empty_config_map, empty_route,
}
use horreum_operator.Checks.{
  compare_service, compare_route, compare_config_map, check_secret, check_pod, check_route,
}
use horreum_operator.Checks.Services.{port_numbers, compare_service_iff, HasKeys, check_secret_iff}
use horreum_operator.Common.Maps.{IsSameMap}
use horreum_operator.Checks.ConfigMaps.{compare_config_map-IsSameMap}
use horreum_operator.Checks.Pods.{IsStuck, SomeReady, check_pod_iff}
use horreum_operator.Checks.Admission.{all_conditions, FirstAdmitted, check_route_iff}
use horreum_operator.Checks.Routes.{compare_route_iff}
use horreum_operator.Secrets.{user_keys}
use horreum_operator.Parts.Postgres.{postgres_pod, postgres_service}
use horreum_operator.Parts.App.{app_service}
use horreum_operator.Tests.Memory.{sample, kubernetes}

abbrev database_service : Service
database_service = postgres_service sample

abbrev front_service : Service
front_service = app_service sample kubernetes

compare_service_iff_example :
    (compare_service (service_object database_service) (service_object front_service) ≡ true) ↔ (
      (database_service.spec.type ≡ front_service.spec.type)
      × (port_numbers database_service.spec.ports ≡ port_numbers front_service.spec.ports))
compare_service_iff_example = compare_service_iff database_service front_service

abbrev partial_secret : Secret
partial_secret = record empty_secret { data_map = ("username", "horreum") ∷ [] }

check_secret_iff_example :
    ((check_secret user_keys (secret_object partial_secret)).0 ≡ true)
    ↔ HasKeys user_keys partial_secret.data_map
check_secret_iff_example = check_secret_iff user_keys partial_secret

abbrev scripts : ConfigMap
scripts = record empty_config_map { data_map = ("a.sh", "echo a") ∷ ("b.sh", "echo b") ∷ [] }

abbrev swapped : ConfigMap
swapped = record empty_config_map { data_map = ("b.sh", "echo b") ∷ ("a.sh", "echo a") ∷ [] }

compare_config_map-IsSameMap_example :
    (compare_config_map (config_map_object scripts) (config_map_object swapped) ≡ true)
    ↔ IsSameMap scripts.data_map swapped.data_map
compare_config_map-IsSameMap_example =
    compare_config_map-IsSameMap scripts swapped (refl, (refl, tt)) (refl, (refl, tt))

abbrev pulling : Pod
pulling = record (postgres_pod sample kubernetes) {
  status = record {
    container_statuses = record { waiting = some "ErrImagePull"; terminated = false } ∷ [];
    conditions = record { type = "Ready"; status = "True" } ∷ [];
  };
}

check_pod_iff_example : ((check_pod (pod_object pulling)).0 ≡ true) ↔ (
    All (λ cs. ¬ IsStuck cs) pulling.status.container_statuses
    × SomeReady pulling.status.conditions)
check_pod_iff_example = check_pod_iff pulling

abbrev plain_route : Route
plain_route = record empty_route {
  spec = record {
    host = "";
    subdomain = "horreum";
    to = record { kind = "Service"; name = "horreum" };
    tls = none;
  };
}

compare_route_iff_example :
    (compare_route (route_object plain_route) (route_object empty_route) ≡ true) ↔ (
      ((plain_route.spec.host ≢ "")
        × (plain_route.spec.host ≡ empty_route.spec.host)
        × (plain_route.spec.tls ≡ empty_route.spec.tls))
      ⊎ ((plain_route.spec.host ≡ "") × (plain_route.spec.subdomain ≡ empty_route.spec.subdomain)))
compare_route_iff_example = compare_route_iff plain_route empty_route

abbrev decided_route : Route
decided_route = record plain_route {
  ingress =
      record { host = "a"; conditions = record { type = "Pending"; status = "True" } ∷ [] }
      ∷ record { host = "b"; conditions = record { type = "Admitted"; status = "True" } ∷ [] }
      ∷ [];
}

check_route_iff_example :
    ((check_route (route_object decided_route)).0 ≡ true)
    ↔ FirstAdmitted (all_conditions decided_route.ingress)
check_route_iff_example = check_route_iff decided_route
