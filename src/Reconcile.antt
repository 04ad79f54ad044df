-- ===== src/Reconcile.antt =====
-- `Reconcile` of controllers/horreum_controller.go, phase by phase in the order of the source.
mod Phases
pub mod Start
pub mod LoadBalancer
pub mod Guard
pub mod Unparsed
pub mod Stale
pub mod Disabled
pub mod External
pub mod Truthful
pub mod Serving
unfoldable pub use Phases.*
use horreum_operator.Common.{String, ◌<>◌, Option, none, some, if◌then◌else◌}
use horreum_operator.Objects.{NamespacedName, Route}
use horreum_operator.Crd.{Horreum, HorreumReconciler}
use horreum_operator.Cluster.{
  Api, State, M, Reply, found, failed, call, pure, raise, ok, ◌>>=◌, ◌>>◌,
}
use horreum_operator.Status.{publish, update_status}
use horreum_operator.Routes.{keycloak_route}
use horreum_operator.Certs.{Crypto}

-- `reconcile.Result`, without an error: whether the request is put back at once.
pub data Result : Type 0 where
  done requeue : Result

abbrev pub node_host_message : String
node_host_message = "service of type NodePort is used but spec.nodeHost is not defined"

module _ (api : Api) (crypto : Crypto api) (r : HorreumReconciler) where
  -- From the URL of the application on.
  unfoldable pub finish : Horreum → String → Option String → M api Result
  finish cr keycloak_public_url none = pure requeue
  finish cr keycloak_public_url (some app_public_url) = do
    app_instance api cr keycloak_public_url app_public_url
    publish api cr
    pure done

  -- From the URL of Keycloak on.
  unfoldable pub with_keycloak : Horreum → Option Route → Option String → M api Result
  unfolding finish
  with_keycloak cr route none = pure requeue
  with_keycloak cr route (some keycloak_public_url) = do
    keycloak_instance api r cr route keycloak_public_url
    url ← app_url api r cr
    finish cr keycloak_public_url url

  -- All that follows the test for the host of the node.
  unfoldable pub reconcile_valid : Horreum → M api Result
  unfolding with_keycloak
  reconcile_valid cr = do
    start_status api cr
    certificates api crypto r cr
    secrets api cr
    postgres api r cr
    route ← keycloak_route api cr r
    url ← keycloak_url api r cr route
    with_keycloak cr route url

  unfoldable pub reconcile_found : Horreum → M api Result
  unfolding reconcile_valid
  reconcile_found cr =
      if lacks_node_host r cr
      then update_status api cr "Error" node_host_message >> raise (api.new_error node_host_message)
      else reconcile_valid cr

  -- The status of the custom resource is what the reconciliation starts from.
  unfoldable pub reconcile : NamespacedName → M api Result
  unfolding reconcile_found
  reconcile request = do
    reply ← call api (api.get_horreum request)
    elim reply [
      | failed e ↦ if api.is_not_found e then pure done else raise e
      | found cr ↦ λ s. reconcile_found cr (record s { status = cr.status })
    ]
