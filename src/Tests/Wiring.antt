-- ===== src/Tests/Wiring.antt =====
-- The pods and the services of a sample.
use horreum_operator.Common.{string_eq}
use horreum_operator.Crd.{RouteSpec}
use horreum_operator.Parts.Postgres.{postgres_pod, postgres_service}
use horreum_operator.Parts.Keycloak.{keycloak_pod_at, keycloak_service}
use horreum_operator.Parts.App.{app_pod, app_service}
use horreum_operator.Parts.Wiring.Labels.{Selects, services-Selects}
use horreum_operator.Parts.Wiring.Volumes.{MountsDeclared, pods-MountsDeclared}
use horreum_operator.Parts.Wiring.References.{
  managed_secrets, ReferencesProvided, pods-ReferencesProvided,
}
use horreum_operator.Tests.Memory.{sample, openshift, kubernetes}

services-Selects_example :
    Selects (postgres_service sample) (postgres_pod sample openshift)
    × Selects (keycloak_service sample openshift) (keycloak_pod_at sample "sso.example")
    × Selects (app_service sample openshift) (app_pod sample "https://sso" "https://app")
services-Selects_example =
    services-Selects sample openshift "sso.example" "https://sso" "https://app"

pods-MountsDeclared_example :
    MountsDeclared (postgres_pod sample kubernetes)
    × MountsDeclared (keycloak_pod_at sample "sso.example")
    × MountsDeclared (app_pod sample "https://sso" "https://app")
pods-MountsDeclared_example =
    pods-MountsDeclared sample kubernetes "sso.example" "https://sso" "https://app"

pods-ReferencesProvided_example :
    ReferencesProvided (managed_secrets sample) (postgres_pod sample openshift)
    × ReferencesProvided (managed_secrets sample) (keycloak_pod_at sample "sso.example")
    × ReferencesProvided (managed_secrets sample) (app_pod sample "https://sso" "https://app")
pods-ReferencesProvided_example =
    pods-ReferencesProvided sample openshift "sso.example" "https://sso" "https://app"

abbrev misspelled : RouteSpec
misspelled = record { host = ""; type = "pass"; tls = "" }
