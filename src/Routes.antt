-- ===== src/Routes.antt =====
-- `tls` and `route` of controllers/utils.go, `keycloakRoute` of controllers/keycloak.go and `appRoute`
-- of controllers/app.go. A nil pointer is `none`.
pub mod Types
use horreum_operator.Common.{
  String, ◌<>◌, Bool, ◌==◌, ◌!=◌, ◌&&◌, Option, none, some, Dict, lookup, if◌then◌else◌, string_eq,
  not,
}
use horreum_operator.Objects.{
  Kind, Secret, TlsConfig, Route, empty_secret, empty_route, empty_meta, tls_termination_edge,
  tls_termination_passthrough, tls_termination_reencrypt, insecure_policy_redirect, tls_cert_key,
  tls_private_key_key,
}
use horreum_operator.Crd.{RouteSpec, Horreum, HorreumReconciler}
use horreum_operator.Cluster.{Api, M, Reply, found, failed, call, pure, raise, ◌>>=◌, ◌>>◌}
use horreum_operator.Status.{update_status}

-- `string(m[key])`, with nil for a key that is not there
abbrev pub text_at : String → Dict String String → String
text_at key m = elim (lookup key m) [ some text ↦ text | none ↦ "" ]

-- The termination of a route type, `none` for one that is not valid.
unfoldable pub termination_of : String → Option String
termination_of type =
    if type == "edge"
    then some tls_termination_edge
    else if type == "reencrypt"
    then some tls_termination_reencrypt
    else if type == ""
    then some tls_termination_reencrypt
    else none

abbrev pub passthrough_config : TlsConfig
passthrough_config = record {
  termination = tls_termination_passthrough;
  insecure_edge_termination_policy = insecure_policy_redirect;
  certificate = "";
  key = "";
  ca_certificate = "";
  destination_ca_certificate = "";
}

-- The configuration of a termination, with the certificates of a secret.
unfoldable pub secret_config : String → Secret → TlsConfig
secret_config termination secret = record {
  termination = termination;
  insecure_edge_termination_policy = insecure_policy_redirect;
  certificate = text_at tls_cert_key secret.data_map;
  key = text_at tls_private_key_key secret.data_map;
  ca_certificate = text_at "ca.crt" secret.data_map;
  destination_ca_certificate = "";
}

unfoldable pub route_with : RouteSpec → String → Horreum → Option TlsConfig → Route
route_with route suffix cr config = record empty_route {
  metadata = record empty_meta {
    name = cr.metadata.name <> suffix;
    namespace = cr.metadata.namespace;
  };
  spec = record {
    host = route.host;
    subdomain = if route.host == "" then cr.metadata.name <> suffix else "";
    to = record { kind = "Service"; name = cr.metadata.name <> suffix };
    tls = config;
  };
}

module _ (api : Api) where
  unfoldable pub fetch_tls_secret : Horreum → RouteSpec → M api Secret
  fetch_tls_secret cr route = do
    reply ← call api (
        api.get Kind.secret
          (record { namespace = cr.metadata.namespace; name = cr.spec.route.tls }))
    elim reply [
      | found secret ↦ pure secret
      | failed e ↦ update_status api cr "Error" ("Cannot find secret " <> route.tls) >> raise e
    ]

  -- The secret of the route, or an empty one if the route names none.
  unfoldable pub tls_secret : Horreum → RouteSpec → M api Secret
  unfolding fetch_tls_secret
  tls_secret cr route =
      if cr.spec.route.tls != "" then fetch_tls_secret cr route else pure empty_secret

  -- What follows the first switch.
  unfoldable pub tls_from_secret : Horreum → RouteSpec → M api (Option TlsConfig)
  unfolding tls_secret termination_of secret_config
  tls_from_secret cr route = do
    secret ← tls_secret cr route
    elim (termination_of cr.spec.route.type) [
      | some termination ↦ pure (some (secret_config termination secret))
      | none ↦ raise (api.new_error ("Invalid route type: " <> cr.spec.route.type))
    ]

  -- The type is that of the route of the application, whichever route is built.
  unfoldable pub tls : Horreum → RouteSpec → M api (Option TlsConfig)
  unfolding tls_from_secret
  tls cr route =
      if cr.spec.route.type == "http"
      then pure none
      else if cr.spec.route.type == "passthrough"
      then pure (some passthrough_config)
      else tls_from_secret cr route

  unfoldable pub route : RouteSpec → String → Horreum → HorreumReconciler → M api (Option Route)
  unfolding tls route_with
  route spec suffix cr r =
      if not r.routes_available
      then pure none
      else do config ← tls cr spec; pure (some (route_with spec suffix cr config))

  unfoldable pub keycloak_route : Horreum → HorreumReconciler → M api (Option Route)
  unfolding route
  keycloak_route cr r =
      let route_type = cr.spec.keycloak.route.type in
      if route_type != "passthrough" && route_type != "reencrypt" && route_type != ""
      then raise (api.new_error "keycloak supports only TLS-encrypted routes")
      else route cr.spec.keycloak.route "-keycloak" cr r

  unfoldable pub app_route : Horreum → HorreumReconciler → M api (Option Route)
  unfolding route
  app_route cr r = route cr.spec.route "" cr r
