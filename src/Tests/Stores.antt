-- ===== src/Tests/Stores.antt =====
-- A service that is replaced, and a database and a Keycloak that are not deployed, in memory.
use horreum_operator.Common.{string_eq, ◌≡◌, refl, true, false, some, [], ◌∷◌, List}
use horreum_operator.Objects.{
  Route, route_object, empty_route, empty_meta, Kind, Object, Service, ObjectMeta, service_object,
  pod_object, with_meta, key_of,
}
use horreum_operator.Crd.{Horreum}
use horreum_operator.Cluster.{ok, found, State}
use horreum_operator.Status.{set_status, keeps_error}
use horreum_operator.Status.Truthful.{observe}
use horreum_operator.Checks.{compare_service, nocheck}
use horreum_operator.Parts.Postgres.{postgres_pod, postgres_service}
use horreum_operator.Ensure.{ensure_same, ensure_deleted}
use horreum_operator.Ensure.Leaves.{placed, IsPut}
use horreum_operator.Ensure.Placed.{ensure_same-placed}
use horreum_operator.Ensure.Settles.{ensure_same-settles}
use horreum_operator.Parts.Keycloak.{keycloak_pod_at, keycloak_service}
use horreum_operator.Reconcile.{postgres_disabled, postgres}
use horreum_operator.Reconcile.Disabled.{IsWithoutDatabase, postgres-IsWithoutDatabase}
use horreum_operator.Tests.Memory.{
  memory_api, memory_api-IsQuiet, memory_api-KeepsKeys, sample, empty_spec, openshift, start,
}
use horreum_operator.Tests.Laws.{kept, memory_api-IsKeyed, memory_api-IsStore}

-- The service of the database, of another type.
abbrev other_service : Service
other_service = record (postgres_service sample) {
  spec = record (postgres_service sample).spec { type = "NodePort" };
}

abbrev mistyped : List Object
mistyped = service_object other_service ∷ []

abbrev owned_meta : ObjectMeta
owned_meta = record (postgres_service sample).metadata {
  owner_references = record { name = "horreum"; controller = true } ∷ [];
}

abbrev replaced : State memory_api
replaced =
    (ensure_same memory_api sample Kind.service (postgres_service sample) compare_service nocheck
      (start mistyped)).1

ensure_same-placed_example :
    IsPut memory_api Kind.service
      (key_of (postgres_service sample).metadata)
      (found (
        placed kept compare_service Kind.service
          (with_meta Kind.service (postgres_service sample) owned_meta)
          (observe memory_api
            (start mistyped).world
            Kind.service
            (key_of (postgres_service sample).metadata))))
      (observe memory_api (start mistyped).world)
      (observe memory_api replaced.world)
unfolding ensure_same postgres_service compare_service set_status keeps_error
ensure_same-placed_example =
    ensure_same-placed memory_api kept sample Kind.service (postgres_service sample) compare_service
      nocheck owned_meta memory_api-IsQuiet memory_api-IsKeyed memory_api-IsStore
      memory_api-KeepsKeys refl (start mistyped) (some other_service) refl

ensure_same-settles_example :
    ((x : Service) × (observe memory_api replaced.world Kind.service
          (key_of (postgres_service sample).metadata)
        ≡ found x)
      × ((ensure_same memory_api sample Kind.service
            (postgres_service sample)
            compare_service
            nocheck
            replaced).0
          ≡ ok (some x)))
    × (observe memory_api
          (ensure_same memory_api sample Kind.service
            (postgres_service sample)
            compare_service
            nocheck
            replaced).1.world
        ≡ observe memory_api replaced.world)
unfolding ensure_same postgres_service compare_service set_status keeps_error
ensure_same-settles_example =
    ensure_same-settles memory_api kept sample Kind.service (postgres_service sample)
      compare_service nocheck owned_meta memory_api-IsQuiet memory_api-IsKeyed memory_api-IsStore
      memory_api-KeepsKeys refl refl (start mistyped) replaced (some other_service) refl

abbrev without_database : Horreum
without_database = record sample {
  spec = record empty_spec { postgres = record empty_spec.postgres { enabled = some false } };
}

abbrev deployed : State memory_api
deployed = start (
    pod_object (postgres_pod without_database openshift)
    ∷ service_object (postgres_service without_database)
    ∷ [])

postgres-IsWithoutDatabase_example :
    IsWithoutDatabase memory_api openshift without_database
      (observe memory_api deployed.world)
      (observe memory_api (postgres memory_api openshift without_database deployed).1.world)
unfolding postgres_disabled postgres ensure_deleted postgres_pod postgres_service
postgres-IsWithoutDatabase_example =
    postgres-IsWithoutDatabase memory_api kept openshift without_database memory_api-IsQuiet
      memory_api-IsKeyed memory_api-IsStore refl deployed refl

abbrev elsewhere : Horreum
elsewhere = record sample {
  spec = record empty_spec {
    keycloak = record empty_spec.keycloak {
      external = record { public_uri = "https://sso.example"; internal_uri = "" };
    };
  };
}

abbrev keycloak_route_object : Route
keycloak_route_object = record empty_route {
  metadata = record empty_meta { name = "horreum-keycloak"; namespace = "perf" };
}

abbrev with_keycloak_objects : State memory_api
with_keycloak_objects = start (
    pod_object (keycloak_pod_at elsewhere "https://sso.example")
    ∷ service_object (keycloak_service elsewhere openshift)
    ∷ route_object keycloak_route_object
    ∷ [])
