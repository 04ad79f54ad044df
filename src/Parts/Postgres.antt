-- ===== src/Parts/Postgres.antt =====
-- controllers/postgres.go. `strings.HasPrefix` is `starts_with`, `fmt.Sprint` of a number is `itoa`.
use text.Mathlib.Text.{starts_with}
use horreum_operator.Common.{
  String, ◌<>◌, Bool, ◌!=◌, ◌||◌, not, none, some, List, [], ◌∷◌, ◌++◌, if◌then◌else◌, string_eq,
}
use horreum_operator.Common.Int.{ℤ, pos, itoa}
use horreum_operator.Objects.{
  EnvVar, Container, VolumeSource, Pod, Service, ConfigMap, config_map_volume, claim_volume,
  empty_dir, empty_meta, empty_container, empty_pod_spec, empty_pod_status, empty_service,
  empty_config_map, env_var, volume_mount, port_entry, basic_auth_username_key,
  basic_auth_password_key, service_type_cluster_ip,
}
use horreum_operator.Crd.{Horreum, HorreumReconciler}
use horreum_operator.Defaults.{
  with_default, db_admin_secret, app_user_secret, keycloak_db_secret, db_image,
}
use horreum_operator.Parts.Service.{secret_env}

unfoldable pub init_keycloak_script : String → String
init_keycloak_script keycloak_db_name =
    "\n"
    <> "\t\t\t\tif psql -t -c \"SELECT 1 FROM pg_roles WHERE rolname = '$KEYCLOAK_USER';\" | grep -q 1; then\n"
    <> "\t\t\t\t\techo \"Database role $KEYCLOAK_USER already exists.\";\n" <> "\t\t\t\telse\n"
    <> "\t\t\t\t\tpsql -c \"CREATE ROLE \\\"$KEYCLOAK_USER\\\" noinherit login password '$KEYCLOAK_PASSWORD';\";\n"
    <> "\t\t\t\tfi\n" <> "\t\t\t\tif psql -t -c \"SELECT 1 FROM pg_database WHERE datname = '"
    <> keycloak_db_name <> "';\" | grep -q 1; then\n" <> "\t\t\t\t\techo \"Database \""
    <> keycloak_db_name <> "\" already exists.\";\n" <> "\t\t\t\telse\n"
    <> "\t\t\t\t\tpsql -c \"CREATE DATABASE " <> keycloak_db_name
    <> " WITH OWNER = '$KEYCLOAK_USER';\";\n" <> "\t\t\t\tfi\n" <> "\t\t\t"

unfoldable pub init_app_script : String
init_app_script =
    "\n" <> "\t\t\t    # Adding extension pgcrypto requires superuser priviledges\n"
    <> "\t\t\t\tpsql -c 'ALTER ROLE \"'$POSTGRESQL_USER'\" WITH SUPERUSER';\n"
    <> "\t\t\t\tif psql -t -c \"SELECT 1 FROM pg_roles WHERE rolname = '$APP_USER';\" | grep -q 1; then\n"
    <> "\t\t\t\t\techo \"Database role $APP_USER already exists.\";\n" <> "\t\t\t\telse\n"
    <> "\t\t\t\t\tpsql -c \"CREATE ROLE \\\"$APP_USER\\\" noinherit login password '$APP_PASSWORD';\"\n"
    <> "\t\t\t\tfi\n" <> "\t\t\t"

unfoldable pub postgres_config_map : Horreum → ConfigMap
postgres_config_map cr =
    let keycloak_db_name = with_default cr.spec.keycloak.database.name "keycloak" in
    record empty_config_map {
      metadata = record empty_meta {
        name = cr.metadata.name <> "-postgresql-start";
        namespace = cr.metadata.namespace;
        labels = ("app", cr.metadata.name) ∷ [];
      };
      data_map =
          ("init_keycloak.sh", init_keycloak_script keycloak_db_name)
          ∷ ("init_app.sh", init_app_script)
          ∷ [];
    }

-- The volume of the database: the claim of the custom resource, or an empty directory.
unfoldable pub db_volume_src : Horreum → VolumeSource
db_volume_src cr =
    if cr.spec.postgres.persistent_volume_claim != ""
    then claim_volume cr.spec.postgres.persistent_volume_claim
    else empty_dir

-- The test for the upstream image, whose user, directories and variables differ.
unfoldable pub is_docker_image : String → Bool
is_docker_image image =
    starts_with image "docker.io/library/postgres" || starts_with image "postgres"

unfoldable pub user_id : Horreum → String → ℤ
user_id cr image = elim cr.spec.postgres.user [
  | some user ↦ user
  | none ↦ if is_docker_image image then pos 999 else pos 26
]

unfoldable pub init_dir : String → String
init_dir image =
    if is_docker_image image
    then "/docker-entrypoint-initdb.d/"
    else "/opt/app-root/src/postgresql-start"

abbrev shared_envs : Horreum → List EnvVar
shared_envs cr =
    secret_env "KEYCLOAK_USER" (keycloak_db_secret cr) basic_auth_username_key
    ∷ secret_env "KEYCLOAK_PASSWORD" (keycloak_db_secret cr) basic_auth_password_key
    ∷ secret_env "APP_USER" (app_user_secret cr) basic_auth_username_key
    ∷ secret_env "APP_PASSWORD" (app_user_secret cr) basic_auth_password_key
    ∷ secret_env "APP_DB_SECRET" (app_user_secret cr) "dbsecret"
    ∷ []

abbrev docker_envs : Horreum → List EnvVar
docker_envs cr =
    env_var "POSTGRES_DB" (with_default cr.spec.database.name "horreum")
    ∷ env_var "PGDATABASE" (with_default cr.spec.database.name "horreum")
    ∷ env_var "PGDATA" "/var/lib/pgsql/data"
    ∷ secret_env "PGUSER" (db_admin_secret cr) basic_auth_username_key
    ∷ secret_env "POSTGRES_USER" (db_admin_secret cr) basic_auth_username_key
    ∷ secret_env "POSTGRESQL_USER" (db_admin_secret cr) basic_auth_username_key
    ∷ secret_env "POSTGRES_PASSWORD" (db_admin_secret cr) basic_auth_password_key
    ∷ []

abbrev red_hat_envs : Horreum → List EnvVar
red_hat_envs cr =
    env_var "POSTGRESQL_DATABASE" (with_default cr.spec.database.name "horreum")
    ∷ secret_env "POSTGRESQL_USER" (db_admin_secret cr) basic_auth_username_key
    ∷ secret_env "POSTGRESQL_PASSWORD" (db_admin_secret cr) basic_auth_password_key
    ∷ []

unfoldable pub postgres_envs : Horreum → String → List EnvVar
unfolding is_docker_image
postgres_envs cr image =
    shared_envs cr ++ (if is_docker_image image then docker_envs cr else red_hat_envs cr)

unfoldable pub postgres_init_containers : HorreumReconciler → String → ℤ → List Container
postgres_init_containers r image user =
    if not r.use_red_hat_images
    then record empty_container {
      name = "init";
      image = image;
      command = "chown" ∷ itoa user ∷ "/var/lib/pgsql/data" ∷ [];
      run_as_user = some (pos 0);
      volume_mounts = volume_mount "db-volume" "/var/lib/pgsql/data" ∷ [];
    }
      ∷ []
    else []

unfoldable pub postgres_pod : Horreum → HorreumReconciler → Pod
unfolding db_volume_src user_id init_dir postgres_envs postgres_init_containers
postgres_pod cr r =
    let image = db_image cr r.use_red_hat_images in
    let user = user_id cr image in
    record {
      metadata = record empty_meta {
        name = cr.metadata.name <> "-db";
        namespace = cr.metadata.namespace;
        labels = ("app", cr.metadata.name) ∷ ("service", "db") ∷ [];
      };
      spec = record empty_pod_spec {
        init_containers = postgres_init_containers r image user;
        fs_group = some user;
        containers =
            record empty_container {
              name = "postgres";
              image = image;
              env = postgres_envs cr image;
              ports = record { name = "postgres"; container_port = pos 5432 } ∷ [];
              run_as_user = some user;
              volume_mounts =
                  volume_mount "db-volume" "/var/lib/pgsql/data"
                  ∷ volume_mount "postgresql-start" (init_dir image)
                  ∷ [];
            }
            ∷ [];
        volumes =
            record { name = "db-volume"; source = db_volume_src cr }
            ∷ record {
              name = "postgresql-start";
              source = config_map_volume (cr.metadata.name <> "-postgresql-start");
            }
            ∷ [];
      };
      status = empty_pod_status;
    }

unfoldable pub postgres_service : Horreum → Service
postgres_service cr = record empty_service {
  metadata = record empty_meta {
    name = cr.metadata.name <> "-db";
    namespace = cr.metadata.namespace;
    annotations =
        ("service.beta.openshift.io/serving-cert-secret-name", cr.metadata.name <> "-postgres")
        ∷ [];
  };
  spec = record {
    type = service_type_cluster_ip;
    ports = port_entry "postgres" (pos 5432) (pos 5432) ∷ [];
    selector = ("app", cr.metadata.name) ∷ ("service", "db") ∷ [];
  };
}
