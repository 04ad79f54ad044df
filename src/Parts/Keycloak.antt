-- ===== src/Parts/Keycloak.antt =====
-- `keycloakPod` and `keycloakService` of controllers/keycloak.go. `url.ParseRequestURI` is an argument,
-- `none` where it returns an error; the code uses no more of its result than the host.
use horreum_operator.Common.{
  String, ◌<>◌, ◌==◌, Option, none, some, List, [], ◌∷◌, if◌then◌else◌, string_eq,
}
use horreum_operator.Common.Int.{pos}
use horreum_operator.Objects.{
  EnvVar, Pod, Service, secret_volume, empty_meta, empty_container, empty_pod_spec,
  empty_pod_status, empty_service, env_var, volume_mount, port_entry, basic_auth_username_key,
  basic_auth_password_key,
}
use horreum_operator.Crd.{Horreum, HorreumReconciler}
use horreum_operator.Defaults.{
  with_default, with_default_int, db_default_host, keycloak_db_secret, keycloak_admin_secret,
}
use horreum_operator.Parts.Service.{secret_env, service_type}

-- The secret that the pod mounts: the user's own for a passthrough route.
unfoldable pub keycloak_certs_secret : Horreum → String
keycloak_certs_secret cr =
    if cr.spec.keycloak.route.type == "passthrough"
    then cr.spec.keycloak.route.tls
    else cr.metadata.name <> "-keycloak-certs"

unfoldable pub keycloak_envs : Horreum → String → List EnvVar
keycloak_envs cr public_host =
    secret_env "KEYCLOAK_ADMIN" (keycloak_admin_secret cr) basic_auth_username_key
    ∷ secret_env "KEYCLOAK_ADMIN_PASSWORD" (keycloak_admin_secret cr) basic_auth_password_key
    ∷ env_var "DB_ADDR" (with_default cr.spec.keycloak.database.host (db_default_host cr))
    ∷ env_var "DB_PORT" (with_default_int cr.spec.keycloak.database.port (pos 5432))
    ∷ env_var "DB_DATABASE" (with_default cr.spec.keycloak.database.name "keycloak")
    ∷ env_var "KC_HTTP_ENABLED" "false"
    ∷ env_var "KC_HTTPS_PORT" "8443"
    ∷ env_var "KC_HTTPS_CERTIFICATE_FILE" "/etc/x509/https/tls.crt"
    ∷ env_var "KC_HTTPS_CERTIFICATE_KEY_FILE" "/etc/x509/https/tls.key"
    ∷ env_var "KC_HOSTNAME" public_host
    ∷ env_var "KC_PROXY" "passthrough"
    ∷ secret_env "KC_DB_USERNAME" (keycloak_db_secret cr) basic_auth_username_key
    ∷ secret_env "KC_DB_PASSWORD" (keycloak_db_secret cr) basic_auth_password_key
    ∷ env_var "KEYCLOAK_COMMAND" "start"
    ∷ []

-- The pod for a public URL whose host is known.
unfoldable pub keycloak_pod_at : Horreum → String → Pod
unfolding keycloak_certs_secret keycloak_envs
keycloak_pod_at cr public_host = record {
  metadata = record empty_meta {
    name = cr.metadata.name <> "-keycloak";
    namespace = cr.metadata.namespace;
    labels = ("app", cr.metadata.name) ∷ ("service", "keycloak") ∷ [];
  };
  spec = record empty_pod_spec {
    containers =
        record empty_container {
          name = "keycloak";
          image = with_default cr.spec.keycloak.image "quay.io/hyperfoil/horreum-keycloak:latest";
          env = keycloak_envs cr public_host;
          ports = record { name = "https"; container_port = pos 8443 } ∷ [];
          volume_mounts = volume_mount "certs" "/etc/x509/https" ∷ [];
        }
        ∷ [];
    volumes = record { name = "certs"; source = secret_volume (keycloak_certs_secret cr) } ∷ [];
  };
  status = empty_pod_status;
}

-- `none` is the nil pod of a URL that does not parse.
unfoldable pub keycloak_pod : (String → Option String) → Horreum → String → Option Pod
unfolding keycloak_pod_at
keycloak_pod parse_request_uri cr keycloak_public_url =
    elim (parse_request_uri keycloak_public_url) [
      | some public_host ↦ some (keycloak_pod_at cr public_host)
      | none ↦ none
    ]

unfoldable pub keycloak_service : Horreum → HorreumReconciler → Service
keycloak_service cr r = record empty_service {
  metadata = record empty_meta {
    name = cr.metadata.name <> "-keycloak";
    namespace = cr.metadata.namespace;
    annotations =
        (
          "service.beta.openshift.io/serving-cert-secret-name",
          cr.metadata.name <> "-keycloak-certs",
        )
        ∷ [];
  };
  spec = record {
    type = service_type cr.spec.keycloak.service_type r;
    ports = port_entry "https" (pos 443) (pos 8443) ∷ [];
    selector = ("app", cr.metadata.name) ∷ ("service", "keycloak") ∷ [];
  };
}
