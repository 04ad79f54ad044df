-- ===== src/Parts/App.antt =====
-- `appPod` and `appService` of controllers/app.go.
use horreum_operator.Common.{
  String, ◌<>◌, Bool, ◌==◌, ◌||◌, none, some, List, [], ◌∷◌, ◌++◌, lookup, if◌then◌else◌, string_eq,
}
use horreum_operator.Common.Int.{pos}
use horreum_operator.Objects.{
  EnvVar, Container, Volume, VolumeMount, Pod, Service, secret_volume, config_map_volume, empty_dir,
  empty_meta, empty_container, empty_pod_spec, empty_pod_status, empty_service, env_var,
  volume_mount, basic_auth_username_key, basic_auth_password_key, tls_cert_key, tls_private_key_key,
  pull_always,
}
use horreum_operator.Crd.{RouteSpec, Horreum, HorreumReconciler}
use horreum_operator.Defaults.{
  db_url, db_admin_secret, app_user_secret, keycloak_admin_secret, horreum_admin_secret, app_image,
  keycloak_internal_url, inner_protocol,
}
use horreum_operator.Parts.Service.{secret_env, service_port, service_type}

unfoldable pub app_script : String
app_script =
    "\n"
    <> "\t\t\t\t\t\t\tkeytool -noprompt -import -alias service-ca -file /etc/ssl/certs/service-ca.crt -cacerts -storepass changeit\n"
    <> "\t\t\t\t\t\t\texport QUARKUS_OIDC_CREDENTIALS_SECRET=$$(cat /etc/horreum/imports/clientsecret)\n"
    <> "\t\t\t\t\t\t\t/deployments/horreum.sh\n" <> "\t\t\t\t\t\t"

-- The test of the branch that gives the pod certificates of its own.
unfoldable pub has_certs : RouteSpec → Bool
has_certs route = route.type == "passthrough" || route.type == "reencrypt" || route.type == ""

unfoldable pub app_certs_secret : Horreum → String
app_certs_secret cr =
    if cr.spec.route.type == "passthrough"
    then cr.spec.route.tls
    else cr.metadata.name <> "-app-certs"

-- The variables that are set for every custom resource.
abbrev base_envs : Horreum → String → String → List EnvVar
base_envs cr keycloak_public_url app_public_url =
    env_var "QUARKUS_DATASOURCE_JDBC_URL" (db_url cr cr.spec.database "horreum")
    ∷ secret_env "QUARKUS_DATASOURCE_USERNAME" (app_user_secret cr) basic_auth_username_key
    ∷ secret_env "QUARKUS_DATASOURCE_PASSWORD" (app_user_secret cr) basic_auth_password_key
    ∷ env_var "QUARKUS_DATASOURCE_MIGRATION_JDBC_URL" (db_url cr cr.spec.database "horreum")
    ∷ secret_env "QUARKUS_DATASOURCE_MIGRATION_USERNAME" (db_admin_secret cr)
        basic_auth_username_key
    ∷ secret_env "QUARKUS_DATASOURCE_MIGRATION_PASSWORD" (db_admin_secret cr)
        basic_auth_password_key
    ∷ secret_env "HORREUM_DB_SECRET" (app_user_secret cr) "dbsecret"
    ∷ env_var "QUARKUS_OIDC_AUTH_SERVER_URL" (keycloak_internal_url cr <> "/realms/horreum")
    ∷ env_var "QUARKUS_OIDC_TOKEN_ISSUER" (keycloak_public_url <> "/realms/horreum")
    ∷ env_var "QUARKUS_OIDC_TLS_VERIFICATION" "none"
    ∷ env_var "HORREUM_URL" app_public_url
    ∷ env_var "HORREUM_INTERNAL_URL"
        (inner_protocol cr.spec.route <> cr.metadata.name <> "." <> cr.metadata.namespace <> ".svc")
    ∷ env_var "HORREUM_KEYCLOAK_URL" (keycloak_public_url <> "/")
    ∷ []

abbrev java_envs : Horreum → List EnvVar
java_envs cr = elim (lookup "java-options" cr.metadata.annotations) [
  | some java_options ↦ env_var "JAVA_OPTIONS" java_options ∷ []
  | none ↦ []
]

abbrev certs_envs : List EnvVar
certs_envs =
    env_var "QUARKUS_HTTP_SSL_CERTIFICATE_FILE" ("/opt/certs/" <> tls_cert_key)
    ∷ env_var "QUARKUS_HTTP_SSL_CERTIFICATE_KEY_FILE" ("/opt/certs/" <> tls_private_key_key)
    ∷ []

unfoldable pub app_envs : Horreum → String → String → List EnvVar
unfolding has_certs
app_envs cr keycloak_public_url app_public_url =
    base_envs cr keycloak_public_url app_public_url
    ++ (java_envs cr ++ (if has_certs cr.spec.route then certs_envs else []))

unfoldable pub app_volumes : Horreum → List Volume
unfolding has_certs app_certs_secret
app_volumes cr =
    record { name = "imports"; source = empty_dir }
    ∷ record { name = "service-ca"; source = config_map_volume "service-ca.crt" }
    ∷ (if has_certs cr.spec.route
        then record { name = "certs"; source = secret_volume (app_certs_secret cr) } ∷ []
        else [])

abbrev service_ca_mount : VolumeMount
service_ca_mount = record {
  name = "service-ca";
  mount_path = "/etc/ssl/certs/service-ca.crt";
  sub_path = "service-ca.crt";
}

unfoldable pub app_mounts : Horreum → List VolumeMount
unfolding has_certs
app_mounts cr =
    volume_mount "imports" "/etc/horreum/imports"
    ∷ (if has_certs cr.spec.route
        then volume_mount "certs" "/opt/certs" ∷ service_ca_mount ∷ []
        else [])

unfoldable pub ca_cert_arg : RouteSpec → String
ca_cert_arg route =
    if route.type == "reencrypt" || route.type == ""
    then "--cacert /etc/ssl/certs/service-ca.crt"
    else ""

unfoldable pub app_init_container : Horreum → String → Container
unfolding ca_cert_arg
app_init_container cr app_public_url = record empty_container {
  name = "init";
  image = app_image cr;
  image_pull_policy = pull_always;
  command = "sh" ∷ "-x" ∷ "-c" ∷ "/deployments/k8s-setup.sh" ∷ [];
  env =
      secret_env "KEYCLOAK_USER" (keycloak_admin_secret cr) basic_auth_username_key
      ∷ secret_env "KEYCLOAK_PASSWORD" (keycloak_admin_secret cr) basic_auth_password_key
      ∷ secret_env "ADMIN_USERNAME" (horreum_admin_secret cr) basic_auth_username_key
      ∷ secret_env "ADMIN_PASSWORD" (horreum_admin_secret cr) basic_auth_password_key
      ∷ env_var "KC_URL" (keycloak_internal_url cr)
      ∷ env_var "CA_CERT_ARG" (ca_cert_arg cr.spec.route)
      ∷ env_var "APP_URL" app_public_url
      ∷ [];
  volume_mounts = volume_mount "imports" "/etc/horreum/imports" ∷ service_ca_mount ∷ [];
}

unfoldable pub app_pod : Horreum → String → String → Pod
unfolding app_envs app_volumes app_mounts app_init_container
app_pod cr keycloak_public_url app_public_url = record {
  metadata = record empty_meta {
    name = cr.metadata.name <> "-app";
    namespace = cr.metadata.namespace;
    labels = ("app", cr.metadata.name) ∷ ("service", "app") ∷ [];
  };
  spec = record empty_pod_spec {
    termination_grace_period_seconds = some (pos 0);
    init_containers = app_init_container cr app_public_url ∷ [];
    containers =
        record empty_container {
          name = "horreum";
          image = app_image cr;
          command = "sh" ∷ "-c" ∷ app_script ∷ [];
          env = app_envs cr keycloak_public_url app_public_url;
          volume_mounts = app_mounts cr;
        }
        ∷ [];
    volumes = app_volumes cr;
  };
  status = empty_pod_status;
}

unfoldable pub app_service : Horreum → HorreumReconciler → Service
app_service cr r = record empty_service {
  metadata = record empty_meta {
    name = cr.metadata.name;
    namespace = cr.metadata.namespace;
    annotations =
        ("service.beta.openshift.io/serving-cert-secret-name", cr.metadata.name <> "-app-certs")
        ∷ [];
  };
  spec = record {
    type = service_type cr.spec.service_type r;
    ports = service_port cr.spec.route (pos 8080) (pos 8443) ∷ [];
    selector = ("app", cr.metadata.name) ∷ ("service", "app") ∷ [];
  };
}
