-- ===== src/Tests/Limits.antt =====
-- Services of the type LoadBalancer, addresses that do not parse, routes that are replaced, and the
-- detection of OpenShift, in memory.
use horreum_operator.Common.{
  String, ◌≡◌, refl, ◌≢◌, ◌↔◌, ◌⊎◌, true, none, some, List, [], ◌∷◌, contains, string_eq, eq_iff,
  arith,
}
use horreum_operator.Objects.{Kind, Service, key_of, service_type_load_balancer}
use horreum_operator.Crd.{Horreum}
use horreum_operator.Cluster.{Api, Reply, ok, panic, found, failed}
use horreum_operator.Urls.{get_load_balancer}
use horreum_operator.Manager.{detect_routes}
use horreum_operator.Manager.Setup.{detect_routes_iff}
use horreum_operator.Certs.{Crypto}
use horreum_operator.Parts.App.{app_service}
use horreum_operator.Reconcile.{route_url, done, reconcile_valid}
use horreum_operator.Reconcile.LoadBalancer.{LoadBalancer-ne-done, get_load_balancer_lem}
use horreum_operator.Objects.{Route, ObjectMeta, route_object, empty_route, empty_meta}
use horreum_operator.Defaults.{if_then_else}
use horreum_operator.Urls.{get_route_url}
use horreum_operator.Checks.{compare_route}
use horreum_operator.Reconcile.Stale.{route_url-replaced}
use horreum_operator.Reconcile.Unparsed.{unparsed_uri-ne-ok}
use horreum_operator.Tests.Memory.{
  Fault, memory_api, memory_crypto, crypto_of, sample, empty_spec, openshift, start,
}

abbrev balanced : Horreum
balanced = record sample { spec = record empty_spec { service_type = service_type_load_balancer } }

LoadBalancer-ne-done_example :
    (reconcile_valid memory_api memory_crypto openshift balanced (start [])).0 ≢ ok done
LoadBalancer-ne-done_example =
    LoadBalancer-ne-done memory_api memory_crypto openshift balanced refl (start [])

get_load_balancer_lem_example :
    ((svc : Service) × ((memory_api.get Kind.service
          (key_of (app_service balanced openshift).metadata)
          (start []).world).0
        ≡ found svc)
      × ((get_load_balancer memory_api (app_service balanced openshift) (start [])).0 ≡ ok ""))
    ⊎ ((e : Fault) × ((memory_api.get Kind.service
            (key_of (app_service balanced openshift).metadata)
            (start []).world).0
          ≡ failed e)
        × ((get_load_balancer memory_api (app_service balanced openshift) (start [])).0 ≡ panic))
get_load_balancer_lem_example =
    get_load_balancer_lem memory_api (app_service balanced openshift) (start [])

-- An address without a scheme, which the parser of this cluster turns down.
abbrev strict_api : Api
strict_api = record memory_api { parse_request_uri = λ url. none }

abbrev strict_crypto : Crypto strict_api
strict_crypto = crypto_of strict_api

abbrev elsewhere : Horreum
elsewhere = record sample {
  spec = record empty_spec {
    keycloak = record empty_spec.keycloak {
      external = record { public_uri = "sso.example"; internal_uri = "" };
    };
  };
}

elsewhere-ne-blank : elsewhere.spec.keycloak.external.public_uri ≢ ""
elsewhere-ne-blank h = ground (arith, eq_iff "sso.example" "")

unparsed_uri-ne-ok_example :
    (reconcile_valid strict_api strict_crypto openshift elsewhere
      (record { world = (start []).world; status = (start []).status })).0
    ≢ ok done
unparsed_uri-ne-ok_example =
    unparsed_uri-ne-ok strict_api strict_crypto openshift elsewhere done elsewhere-ne-blank refl
      (record { world = (start []).world; status = (start []).status })

abbrev groups : String → Reply Fault (List String)
groups server = found ("apps" ∷ "route.openshift.io" ∷ [])

detect_routes_iff_example : (detect_routes (some "config") some groups ≡ true) ↔ (
    (c : String) × (d : String) × (names : List String) × (some "config" ≡ some c)
    × (some c ≡ some d)
    × (groups d ≡ found names)
    × (contains "route.openshift.io" names ≡ true))
detect_routes_iff_example = detect_routes_iff (some "config") some groups

abbrev named_route : String → Route
named_route host = record empty_route {
  metadata = record empty_meta { name = "horreum"; namespace = "perf" };
  spec = record {
    host = host;
    subdomain = "";
    to = record { kind = "Service"; name = "horreum" };
    tls = none;
  };
  ingress = record { host = host; conditions = [] } ∷ [];
}

abbrev owned_meta : ObjectMeta
owned_meta = record empty_meta {
  name = "horreum";
  namespace = "perf";
  owner_references = record { name = "horreum"; controller = true } ∷ [];
}

route_url-replaced_example :
    (route_url memory_api sample
      (some (named_route "new.example"))
      (start (route_object (named_route "old.example") ∷ []))).0
    ≡ ok "http://old.example"
unfolding compare_route get_route_url if_then_else
route_url-replaced_example =
    route_url-replaced memory_api sample (named_route "new.example") (named_route "old.example")
      owned_meta (start (route_object (named_route "old.example") ∷ [])) refl refl refl (λ w. refl)
      (λ w. refl)
