-- ===== src/Defaults.antt =====
-- controllers/defaults.go, and the helpers of controllers/utils.go that choose names and URLs.
use horreum_operator.Common.{String, ◌<>◌, Bool, ◌==◌, ◌!=◌, ◌||◌, if◌then◌else◌}
use horreum_operator.Common.{string_eq}
use horreum_operator.Common.Int.{ℤ, pos, int_eq, itoa}
use horreum_operator.Crd.{DatabaseSpec, RouteSpec, Horreum}

unfoldable pub with_default : String → String → String
with_default custom def = if custom == "" then def else custom

unfoldable pub if_then_else : Bool → String → String → String
if_then_else condition on_true on_false = if condition then on_true else on_false

unfoldable pub with_default_int : ℤ → ℤ → String
unfolding itoa
with_default_int custom def = if custom == pos 0 then itoa def else itoa custom

unfoldable pub db_default_host : Horreum → String
db_default_host cr = cr.metadata.name <> "-db." <> cr.metadata.namespace <> ".svc"

unfoldable pub db_url : Horreum → DatabaseSpec → String → String
unfolding with_default with_default_int db_default_host
db_url cr db def_name =
    "jdbc:postgresql://"
    <> with_default db.host (db_default_host cr)
    <> ":"
    <> with_default_int db.port (pos 5432)
    <> "/"
    <> with_default db.name def_name

unfoldable pub db_admin_secret : Horreum → String
unfolding with_default
db_admin_secret cr = with_default cr.spec.postgres.admin_secret (cr.metadata.name <> "-db-admin")

unfoldable pub app_user_secret : Horreum → String
unfolding with_default
app_user_secret cr = with_default cr.spec.database.secret (cr.metadata.name <> "-app")

unfoldable pub keycloak_db_secret : Horreum → String
unfolding with_default
keycloak_db_secret cr =
    with_default cr.spec.keycloak.database.secret (cr.metadata.name <> "-keycloak-db")

unfoldable pub keycloak_admin_secret : Horreum → String
unfolding with_default
keycloak_admin_secret cr =
    with_default cr.spec.keycloak.admin_secret (cr.metadata.name <> "-keycloak-admin")

unfoldable pub horreum_admin_secret : Horreum → String
unfolding with_default
horreum_admin_secret cr = with_default cr.spec.admin_secret (cr.metadata.name <> "-admin")

unfoldable pub db_image : Horreum → Bool → String
unfolding with_default if_then_else
db_image cr use_red_hat_image = with_default cr.spec.postgres.image (
    if_then_else use_red_hat_image "registry.redhat.io/rhel8/postgresql-12:latest"
      "docker.io/library/postgres:14.4")

unfoldable pub app_image : Horreum → String
unfolding with_default
app_image cr = with_default cr.spec.image "quay.io/hyperfoil/horreum:latest"

unfoldable pub keycloak_internal_url : Horreum → String
keycloak_internal_url cr =
    if cr.spec.keycloak.external.internal_uri != ""
    then cr.spec.keycloak.external.internal_uri
    else if cr.spec.keycloak.external.public_uri != ""
    then cr.spec.keycloak.external.public_uri
    else "https://" <> cr.metadata.name <> "-keycloak." <> cr.metadata.namespace <> ".svc"

unfoldable pub inner_protocol : RouteSpec → String
inner_protocol route =
    if route.type == "http" || route.type == "edge" then "http://" else "https://"
