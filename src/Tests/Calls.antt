-- ===== src/Tests/Calls.antt =====
-- `ensureSame`, `setStatus`, the routes and the test for the host of the node, run in memory.
use horreum_operator.Common.{
  String, ◌<>◌, ◌≡◌, refl, ◌↔◌, ◌⊎◌, inl, inr, true, Option, none, some, List, [], ◌∷◌,
}
use horreum_operator.Objects.{
  Kind, Service, Route, ObjectMeta, TlsConfig, service_object, service_type_node_port,
}
use horreum_operator.Crd.{Horreum, HorreumStatus}
use horreum_operator.Cluster.{Api, State, ok, err}
use horreum_operator.Status.{update_status, keeps_error}
use horreum_operator.Status.Truthful.{observe, IsReady}
use horreum_operator.Status.Overall.{Note, fault, wait, after_notes, Prevails, after_notes-Prevails}
use horreum_operator.Ensure.{ensure_same, ensure_deleted}
use horreum_operator.Ensure.Truthful.{IsHealthy, ensure_same-Ready}
use horreum_operator.Ensure.Errors.{ensure_same-err, ensure_deleted-err}
use horreum_operator.Checks.{compare_service, nocheck}
use horreum_operator.Checks.Faults.{compare_service-IgnoresMeta, nocheck-IsFaultFinding}
use horreum_operator.Parts.Service.{service_type}
use horreum_operator.Parts.Postgres.{postgres_service}
use horreum_operator.Parts.Wiring.Ports.{IsRouteType}
use horreum_operator.Routes.{tls, keycloak_route}
use horreum_operator.Routes.Types.{tls_lem, keycloak_route_lem}
use horreum_operator.Reconcile.{lacks_node_host, reconcile_found}
use horreum_operator.Reconcile.Guard.{lacks_node_host_iff, reconcile_found-lacks_node_host}
use horreum_operator.Tests.Memory.{
  message, memory_api, memory_api-IsQuiet, memory_api-KeepsKeys, memory_crypto, empty_status,
  sample, openshift, kubernetes, start,
}

abbrev of_status : String → HorreumStatus
of_status status = record empty_status { status = status }

-- A wait, an error and another wait.
abbrev notes : List Note
notes = wait "one" ∷ fault "two" ∷ wait "three" ∷ []

after_notes-Prevails_example :
    Prevails memory_api notes empty_status (after_notes memory_api notes (start [])).status
after_notes-Prevails_example = after_notes-Prevails memory_api notes (start [])

abbrev database_service : Service
database_service = postgres_service sample

-- The service is there, and all was well before.
abbrev running : State memory_api
running = record (start (service_object database_service ∷ [])) { status = of_status "Ready" }

ensure_same-Ready_example :
    IsReady running.status
    × (observe memory_api
          (ensure_same memory_api sample Kind.service database_service compare_service nocheck
            running).1.world
        ≡ observe memory_api running.world)
    × IsHealthy memory_api
        (observe memory_api
          (ensure_same memory_api sample Kind.service database_service compare_service nocheck
            running).1.world)
        Kind.service
        database_service
        compare_service
        nocheck
unfolding ensure_same compare_service nocheck postgres_service
ensure_same-Ready_example =
    ensure_same-Ready memory_api sample Kind.service database_service compare_service nocheck
      running (some database_service) memory_api-IsQuiet memory_api-KeepsKeys
      compare_service-IgnoresMeta nocheck-IsFaultFinding refl refl

-- A cluster that creates nothing.
abbrev full_api : Api
full_api = record memory_api { create = λ k o w. (some (message "quota exceeded"), w) }

abbrev full : State full_api
full = record { world = (start []).world; status = empty_status }

abbrev owned : ObjectMeta → ObjectMeta
owned m = record m { owner_references = record { name = "horreum"; controller = true } ∷ [] }

ensure_same-err_example :
    (ensure_same full_api sample Kind.service database_service compare_service nocheck
      full).1.status.status
    ≡ "Error"
unfolding ensure_same postgres_service update_status keeps_error
ensure_same-err_example =
    ensure_same-err full_api sample Kind.service database_service compare_service nocheck
      (owned database_service.metadata) full (message "quota exceeded") refl refl

-- A cluster that deletes nothing.
abbrev held_api : Api
held_api = record memory_api { delete = λ k o w. (some (message "finalizer"), w) }

abbrev held : State held_api
held = record { world = running.world; status = empty_status }

ensure_deleted-err_example :
    (ensure_deleted held_api sample Kind.service database_service held).1.status.status ≡ "Error"
unfolding ensure_deleted update_status keeps_error postgres_service
ensure_deleted-err_example =
    ensure_deleted-err held_api sample Kind.service database_service held (message "finalizer") refl

lacks_node_host_iff_example : (lacks_node_host kubernetes sample ≡ true) ↔ (
    (sample.spec.node_host ≡ "")
    × ((service_type sample.spec.service_type kubernetes ≡ service_type_node_port)
        ⊎ (service_type sample.spec.keycloak.service_type kubernetes ≡ service_type_node_port)))
lacks_node_host_iff_example = lacks_node_host_iff kubernetes sample

abbrev turned_down : HorreumStatus
turned_down = record empty_status {
  status = "Error";
  reason = "service of type NodePort is used but spec.nodeHost is not defined";
}

reconcile_found-lacks_node_host_example :
    reconcile_found memory_api memory_crypto kubernetes sample (start []) ≡ (
      err (message "service of type NodePort is used but spec.nodeHost is not defined"),
      record {
        world = record (start []).world { statuses = turned_down ∷ []; clock = 1 };
        status = turned_down;
      },
    )
unfolding service_type
reconcile_found-lacks_node_host_example =
    reconcile_found-lacks_node_host memory_api memory_crypto kubernetes sample (start []) refl
      (inl refl)

abbrev of_type : String → Horreum
of_type type = record sample {
  spec = record sample.spec { route = record { host = ""; type = type; tls = "" } };
}

tls_lem_example :
    (IsRouteType "edge"
      × ((config : Option TlsConfig) × (tls memory_api
              (of_type "edge")
              (of_type "edge").spec.route
              (start [])
            ≡ (ok config, start []))
          × ((config ≡ none) ↔ (◌≡◌ {A = String} "edge" "http"))))
    ⊎ ((¬ IsRouteType "edge")
        × (tls memory_api (of_type "edge") (of_type "edge").spec.route (start [])
            ≡ (err (message ("Invalid route type: " <> "edge")), start [])))
tls_lem_example = tls_lem memory_api (of_type "edge") (of_type "edge").spec.route (start []) refl

keycloak_route_lem_example :
    (made : Route) × (keycloak_route memory_api (of_type "http") openshift (start [])
      ≡ (ok (some made), start []))
    × (made.spec.to.name ≡ sample.metadata.name <> "-keycloak")
    × ((made.spec.tls ≡ none) ↔ (◌≡◌ {A = String} "http" "http"))
keycloak_route_lem_example =
    keycloak_route_lem memory_api (of_type "http") openshift (start []) refl (inr (inr refl))
      (inl refl) refl
