-- ===== src/Reconcile/Phases.antt =====
-- The phases of `Reconcile`: consecutive parts of its body, with the source's early returns. A phase
-- that computes a URL returns `none` where the source returns `Requeue: true`.
use horreum_operator.Common.{
  String, ◌<>◌, Bool, ◌==◌, ◌!=◌, ◌&&◌, ◌||◌, not, false, Option, none, some, List, [], ◌∷◌, ◌++◌,
  if◌then◌else◌, string_eq,
}
use horreum_operator.Common.Int.{ℤ, pos, int_eq}
use horreum_operator.Objects.{
  Kind, Service, Secret, ConfigMap, Route, Pod, Resource, empty_meta, empty_config_map, empty_route,
  service_type_load_balancer,
}
use horreum_operator.Crd.{Horreum, HorreumReconciler}
use horreum_operator.Cluster.{Api, M, pure, crash, ok, ◌>>=◌, ◌>>◌}
use horreum_operator.Status.{update_status}
use horreum_operator.Secrets.{user_keys}
use horreum_operator.Defaults.{
  db_admin_secret, app_user_secret, keycloak_db_secret, keycloak_admin_secret, horreum_admin_secret,
}
use horreum_operator.Parts.Service.{is_node_port}
use horreum_operator.Parts.Postgres.{postgres_config_map, postgres_pod, postgres_service}
use horreum_operator.Parts.Keycloak.{keycloak_pod, keycloak_service}
use horreum_operator.Parts.App.{app_pod, app_service}
use horreum_operator.Parts.Upload.{upload_config}
use horreum_operator.Secrets.{new_secret, generate_password}
use horreum_operator.Routes.{app_route}
use horreum_operator.Urls.{host_port_url, get_route_url, get_node_port, get_load_balancer}
use horreum_operator.Checks.{
  nocompare, compare_pods, compare_service, compare_route, compare_config_map, nocheck,
  check_secret, check_pod, check_route,
}
use horreum_operator.Ensure.{CompareFunc, CheckFunc, ensure_same, ensure_deleted}
use horreum_operator.Certs.{Crypto, create_ca, create_service_cert}

unfoldable pub lacks_node_host : HorreumReconciler → Horreum → Bool
lacks_node_host r cr =
    cr.spec.node_host == ""
    && (is_node_port r cr.spec.service_type || is_node_port r cr.spec.keycloak.service_type)

abbrev pub ready_reason : String → String
ready_reason admin_secret =
    "For admin (" <> admin_secret <> ") password run: kubectl get secret " <> admin_secret
    <> " -o go-template='{{.data.password|base64decode}}'"

abbrev pub service_ca_config_map : Horreum → ConfigMap
service_ca_config_map cr = record empty_config_map {
  metadata = record empty_meta {
    name = "service-ca.crt";
    namespace = cr.metadata.namespace;
    annotations = ("service.beta.openshift.io/inject-cabundle", "true") ∷ [];
  };
}

-- `cr.Spec.Postgres.Enabled != nil && !*cr.Spec.Postgres.Enabled`
unfoldable pub postgres_disabled : Horreum → Bool
postgres_disabled cr = elim cr.spec.postgres.enabled [ none ↦ false | some enabled ↦ not enabled ]

-- `appSecret.StringData["dbsecret"] = …`
unfoldable pub add_db_secret : Secret → String → Secret
add_db_secret secret password = record secret {
  string_data = secret.string_data ++ (("dbsecret", password) ∷ []);
}

module _ (api : Api) where
  -- The status is set to `Ready` at once, and only later calls take that back.
  unfoldable pub start_status : Horreum → M api (Unit {0})
  start_status cr s =
      if s.status.status != "Ready"
      then (
        ok tt,
        record {
          world = (api.now s.world).1;
          status = record s.status {
            status = "Ready";
            reason = ready_reason (horreum_admin_secret cr);
            last_update = (api.now s.world).0;
          };
        },
      )
      else (ok tt, s)

  module _ (crypto : Crypto api) (r : HorreumReconciler) (cr : Horreum) where
    unfoldable pub certificates : M api (Unit {0})
    certificates =
        if not r.routes_available
        then (create_ca api crypto cr >>= λ ca.
            create_service_cert api crypto cr ca.0 ca.1 (cr.metadata.name <> "-app-certs")
              cr.metadata.name (pos 1000)
            >> create_service_cert api crypto cr ca.0 ca.1 (cr.metadata.name <> "-keycloak-certs")
                (cr.metadata.name <> "-keycloak") (pos 2000))
        else (ensure_same api cr Kind.config_map (service_ca_config_map cr) nocompare nocheck
            >> pure tt)

  -- A secret that is kept as it is, and reported if it lacks a key.
  unfoldable pub keep_secret : Horreum → Secret → List String → M api (Unit {0})
  keep_secret cr secret keys =
      ensure_same api cr Kind.secret secret nocompare (check_secret keys) >>= λ _. pure tt

  unfoldable pub secrets : Horreum → M api (Unit {0})
  unfolding keep_secret add_db_secret
  secrets cr = do
    db_admin ← new_secret api cr (db_admin_secret cr)
    keep_secret cr db_admin user_keys
    app ← new_secret api cr (app_user_secret cr)
    password ← generate_password api
    keep_secret cr (add_db_secret app password) (user_keys ++ ("dbsecret" ∷ []))
    keycloak_admin ← new_secret api cr (keycloak_admin_secret cr)
    keep_secret cr keycloak_admin user_keys
    keycloak_db ← new_secret api cr (keycloak_db_secret cr)
    keep_secret cr keycloak_db user_keys
    horreum_admin ← new_secret api cr (horreum_admin_secret cr)
    keep_secret cr horreum_admin user_keys

  -- An object whose pointer is not looked at again.
  abbrev pub keep : Horreum → (k : Kind) → Resource k → CompareFunc → CheckFunc → M api (Unit {0})
  keep cr k object compare check = ensure_same api cr k object compare check >>= λ _. pure tt

  unfoldable pub postgres : HorreumReconciler → Horreum → M api (Unit {0})
  unfolding postgres_disabled
  postgres r cr =
      if postgres_disabled cr
      then (ensure_deleted api cr Kind.pod (postgres_pod cr r)
          >> ensure_deleted api cr Kind.service (postgres_service cr))
      else (keep cr Kind.config_map (postgres_config_map cr) compare_config_map nocheck
          >> (keep cr Kind.pod (postgres_pod cr r) (compare_pods api.deep_derivative) check_pod
              >> keep cr Kind.service (postgres_service cr) compare_service nocheck))

  -- The URL of a route that is ensured first. The URL is read from what `ensureSame` found.
  unfoldable pub route_url : Horreum → Option Route → M api String
  route_url cr none = crash
  route_url cr (some route) =
      ensure_same api cr Kind.route route compare_route check_route >>= λ out.
      pure (get_route_url (elim out [ some found_route ↦ found_route | none ↦ empty_route ]))

  -- A URL that is not known yet is waited for.
  unfoldable pub await_url : Horreum → String → String → M api (Option String)
  await_url cr reason url =
      if url == "" then (update_status api cr "Pending" reason >> pure none) else pure (some url)

  unfoldable pub await_node_port : Horreum → String → ℤ → M api (Option String)
  await_node_port cr reason node_port =
      if node_port == pos 0
      then (update_status api cr "Pending" reason >> pure none)
      else pure (some (host_port_url cr.spec.node_host node_port))

  -- The three ways in which a service is reached from outside.
  unfoldable pub exposed_url :
      HorreumReconciler
      → Horreum
      → String
      → Service
      → Option Route
      → String
      → String
      → M api (Option String)
  unfolding route_url await_url await_node_port
  exposed_url r cr service_type service route port_reason url_reason =
      if is_node_port r service_type
      then get_node_port api service >>= await_node_port cr port_reason
      else if service_type == service_type_load_balancer
      then get_load_balancer api service >>= await_url cr url_reason
      else if r.routes_available
      then route_url cr route >>= await_url cr url_reason
      else await_url cr url_reason ""

  abbrev pub set_keycloak_url : String → M api (Unit {0})
  set_keycloak_url url s = (ok tt, record s { status = record s.status { keycloak_url = url } })

  abbrev pub set_public_url : String → M api (Unit {0})
  set_public_url url s = (ok tt, record s { status = record s.status { public_url = url } })

  -- A URL that is known is written into the status.
  unfoldable pub record_url : (String → M api (Unit {0})) → Option String → M api (Option String)
  record_url write none = pure none
  record_url write (some url) = write url >> pure (some url)

  unfoldable pub keycloak_url : HorreumReconciler → Horreum → Option Route → M api (Option String)
  unfolding exposed_url record_url
  keycloak_url r cr route = do
    url ←
        (if cr.spec.keycloak.external.public_uri == ""
          then (keep cr Kind.service (keycloak_service cr r) compare_service nocheck
              >> exposed_url r cr cr.spec.keycloak.service_type (keycloak_service cr r) route
                  "Waiting for Keycloak service node port" "Waiting for Keycloak service URL")
          else pure (some cr.spec.keycloak.external.public_uri))
    record_url set_keycloak_url url

  -- A pointer that may be nil: the first call of one of its methods panics.
  abbrev pub non_nil : {A : Type 0} → Option A → M api A
  non_nil none = crash
  non_nil (some a) = pure a

  unfoldable pub remove_keycloak :
      HorreumReconciler → Horreum → Option Route → Pod → M api (Unit {0})
  remove_keycloak r cr route pod = do
    ensure_deleted api cr Kind.pod pod
    ensure_deleted api cr Kind.service (keycloak_service cr r)
    if r.routes_available then (non_nil route >>= ensure_deleted api cr Kind.route) else pure tt

  unfoldable pub place_keycloak :
      HorreumReconciler → Horreum → Option Route → Pod → M api (Unit {0})
  unfolding remove_keycloak
  place_keycloak r cr route pod =
      if cr.spec.keycloak.external.public_uri != ""
      then remove_keycloak r cr route pod
      else keep cr Kind.pod pod (compare_pods api.deep_derivative) check_pod

  unfoldable pub keycloak_instance :
      HorreumReconciler → Horreum → Option Route → String → M api (Unit {0})
  unfolding place_keycloak
  keycloak_instance r cr route keycloak_public_url =
      non_nil (keycloak_pod api.parse_request_uri cr keycloak_public_url)
      >>= place_keycloak r cr route

  unfoldable pub app_url : HorreumReconciler → Horreum → M api (Option String)
  unfolding exposed_url record_url
  app_url r cr = do
    route ← app_route api cr r
    keep cr Kind.service (app_service cr r) compare_service nocheck
    url ←
        exposed_url r cr cr.spec.service_type (app_service cr r) route
          "Waiting for service node port" "Waiting for Horreum service URL"
    record_url set_public_url url

  unfoldable pub app_instance : Horreum → String → String → M api (Unit {0})
  app_instance cr keycloak_public_url app_public_url = do
    keep cr Kind.pod (app_pod cr keycloak_public_url app_public_url)
        (compare_pods api.deep_derivative) check_pod
    keep cr Kind.config_map (upload_config cr) nocompare nocheck
