-- ===== src/Parts/Service.antt =====
-- `secretEnv`, `servicePort` and `serviceType` of controllers/utils.go, and `isNodePort` of
-- controllers/horreum_controller.go.
use horreum_operator.Common.{
  String, Bool, false, ◌==◌, ◌!=◌, ◌&&◌, ◌||◌, not, some, if◌then◌else◌, string_eq,
}
use horreum_operator.Common.Int.{ℤ, pos}
use horreum_operator.Objects.{
  EnvVar, ServicePort, port_entry, service_type_node_port, service_type_cluster_ip,
}
use horreum_operator.Crd.{RouteSpec, HorreumReconciler}

unfoldable pub secret_env : String → String → String → EnvVar
secret_env name secret key = record {
  name = name;
  value = "";
  value_from = some (record { key = key; optional = some false; name = secret });
}

unfoldable pub service_port : RouteSpec → ℤ → ℤ → ServicePort
service_port route http_port https_port =
    if route.type == "http" || route.type == "edge"
    then port_entry "http" (pos 80) http_port
    else port_entry "https" (pos 443) https_port

unfoldable pub service_type : String → HorreumReconciler → String
service_type svc_type r =
    if svc_type != ""
    then svc_type
    else if r.routes_available
    then service_type_cluster_ip
    else service_type_node_port

unfoldable pub is_node_port : HorreumReconciler → String → Bool
is_node_port r service_type =
    service_type == service_type_node_port || service_type == "" && not r.routes_available
