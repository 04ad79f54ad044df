-- ===== src/Reconcile/Guard.antt =====
-- The test for the host of the node, before anything is deployed.
use horreum_operator.Common.{String, ◌≡◌, refl, ◌↔◌, ◌⊎◌, true, string_eq, eq_iff, arith}
use horreum_operator.Objects.{service_type_node_port}
use horreum_operator.Crd.{Horreum, HorreumReconciler, HorreumStatus}
use horreum_operator.Cluster.{Api, State, err, ◌>>=◌}
use horreum_operator.Parts.Service.{service_type}
use horreum_operator.Parts.Wiring.Ports.{is_node_port_iff}
use horreum_operator.Certs.{Crypto}
use horreum_operator.Status.Sticky.{update_status-Error}
use horreum_operator.Reconcile.Phases.{lacks_node_host}
use horreum_operator.Reconcile.{node_host_message, reconcile_found}

-- The custom resource is turned down exactly when it names no host of the node and the service of the
-- application or that of Keycloak would be built with the type NodePort.
pub lacks_node_host_iff :
    (r : HorreumReconciler) (cr : Horreum)
    → (lacks_node_host r cr ≡ true) ↔ (
        (cr.spec.node_host ≡ "")
        × ((service_type cr.spec.service_type r ≡ service_type_node_port)
            ⊎ (service_type cr.spec.keycloak.service_type r ≡ service_type_node_port)))
unfolding lacks_node_host
lacks_node_host_iff r cr = ground (
  arith,
  eq_iff cr.spec.node_host "",
  is_node_port_iff r cr.spec.service_type,
  is_node_port_iff r cr.spec.keycloak.service_type,
  eq_iff (service_type cr.spec.service_type r) service_type_node_port,
  eq_iff (service_type cr.spec.keycloak.service_type r) service_type_node_port,
)

-- If the custom resource names no host of the node and one of the two services would be built with
-- the type NodePort, the request ends by an error that asks for the host; the custom resource gets the
-- status `Error` with the same message as the reason and keeps its addresses, and the update of this
-- status is the only call that may change the cluster.
pub reconcile_found-lacks_node_host :
    (api : Api) (crypto : Crypto api) (r : HorreumReconciler) (cr : Horreum) (s : State api)
    → cr.spec.node_host ≡ ""
    → (service_type cr.spec.service_type r ≡ service_type_node_port)
      ⊎ (service_type cr.spec.keycloak.service_type r ≡ service_type_node_port)
    → let message : String = "service of type NodePort is used but spec.nodeHost is not defined" in
      let turned_down : HorreumStatus = record {
        status = "Error";
        last_update = (api.now s.world).0;
        reason = message;
        public_url = s.status.public_url;
        keycloak_url = s.status.keycloak_url;
      } in
      reconcile_found api crypto r cr s ≡ (
        err (api.new_error message),
        record {
          world = api.update_status (record cr { status = turned_down }) (api.now s.world).1;
          status = turned_down;
        },
      )
unfolding reconcile_found
reconcile_found-lacks_node_host api crypto r cr s blank node_port =
    rw ((lacks_node_host_iff r cr).1 (blank, node_port)) (
      rw (update_status-Error api cr node_host_message s, ◌>>=◌)
        (rw (update_status-Error api cr node_host_message s) refl))
