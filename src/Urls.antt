-- ===== src/Urls.antt =====
-- `getService`, `getNodePort`, `getLoadBalancer` and `getRouteUrl` of
-- controllers/horreum_controller.go.
use horreum_operator.Common.{
  String, ◌<>◌, true, false, ◌==◌, ◌!=◌, Option, none, some, [], ◌∷◌, if◌then◌else◌, string_eq,
}
use horreum_operator.Common.Int.{ℤ, itoa}
use horreum_operator.Objects.{Kind, Service, LoadBalancerIngress, Route, key_of}
use horreum_operator.Cluster.{Api, M, Reply, found, failed, call, pure, raise, crash, ◌>>=◌}
use horreum_operator.Defaults.{if_then_else}

-- `fmt.Sprintf("https://%s:%d", host, port)`
unfoldable pub host_port_url : String → ℤ → String
host_port_url host port = "https://" <> host <> ":" <> itoa port

unfoldable pub get_route_url : Route → String
unfolding if_then_else
get_route_url route = elim route.ingress [
  | [] ↦ ""
  | ri ∷ _ ↦
      if ri.host == ""
      then ""
      else if_then_else (elim route.spec.tls [ some _ ↦ true | none ↦ false ]) "https" "http"
        <> "://"
        <> ri.host
]

-- The address of an ingress with a port: by name, else by number, else unknown.
unfoldable pub ingress_url : LoadBalancerIngress → ℤ → String
ingress_url i port =
    if i.hostname != ""
    then host_port_url i.hostname port
    else if i.ip != ""
    then host_port_url i.ip port
    else ""

module _ (api : Api) where
  -- The service as it is in the cluster; with an error the pointer is nil.
  unfoldable pub get_service : Service → M api (Reply api.Error Service)
  get_service service = call api (api.get Kind.service (key_of service.metadata))

  unfoldable pub get_node_port : Service → M api ℤ
  unfolding get_service
  get_node_port service = do
    reply ← get_service service
    elim reply [
      | failed e ↦ raise e
      | found svc ↦ elim svc.spec.ports [ [] ↦ crash | p ∷ _ ↦ pure p.node_port ]
    ]

  -- The port of an ingress: its own first port, or the node port of the service.
  unfoldable pub ingress_port : Service → LoadBalancerIngress → M api ℤ
  ingress_port svc i = elim i.ports [
    | port ∷ _ ↦ pure port
    | [] ↦ elim svc.spec.ports [ [] ↦ crash | p ∷ _ ↦ pure p.node_port ]
  ]

  -- The body of the test in `getLoadBalancer`, on the pointer to the service.
  unfoldable pub load_balancer_url : Option Service → M api String
  unfolding ingress_port ingress_url
  load_balancer_url none = crash
  load_balancer_url (some svc) = elim svc.ingress [
    | [] ↦ pure ""
    | i ∷ _ ↦ ingress_port svc i >>= λ port. pure (ingress_url i port)
  ]

  -- The test is `err != nil`, where `getService` returns a nil pointer.
  unfoldable pub get_load_balancer : Service → M api String
  unfolding get_service load_balancer_url
  get_load_balancer service = do
    reply ← get_service service
    elim reply [ failed _ ↦ load_balancer_url none | found _ ↦ pure "" ]
