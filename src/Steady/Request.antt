-- ===== src/Steady/Request.antt =====
-- A request for a custom resource of which everything runs.
use horreum_operator.Common.{◌≡◌, ◌∙◌, false}
use horreum_operator.Objects.{NamespacedName}
use horreum_operator.Crd.{Horreum, HorreumReconciler}
use horreum_operator.Cluster.{Api, State, found, ok}
use horreum_operator.Status.Truthful.{observe, IsReady, IsQuiet}
use horreum_operator.Status.Keyed.{IsAnswering}
use horreum_operator.Ensure.Truthful.{KeepsKeys}
use horreum_operator.Secrets.Passwords.{IsBounded}
use horreum_operator.Certs.{Crypto}
use horreum_operator.Reconcile.{
  postgres_disabled, lacks_node_host, done, reconcile_found, reconcile,
}
use horreum_operator.Steady.Ensure.{CanOwn}
use horreum_operator.Steady.Routing.{IsKeycloakRouteType}
use horreum_operator.Steady.Settled.{IsSettled, reconcile_valid-of-IsSettled}

-- If the custom resource of a request is there and is not turned down for want of a host, everything
-- runs, with its certificates, and is reached under the URLs that it is built for, a reconciliation that
-- deploys both the database and Keycloak is done, whatever the status was: it changes no object and
-- leaves the status `Ready`; provided that the type of the Keycloak route is valid, no one else changes
-- an object meanwhile, owner references can be set and keep an object's name, and random numbers lie
-- below their bound.
pub reconcile-of-IsSettled :
    (api : Api) (crypto : Crypto api) (r : HorreumReconciler) (cr : Horreum)
    → IsQuiet api
    → IsAnswering api
    → KeepsKeys api
    → CanOwn api cr
    → IsBounded api
    → postgres_disabled cr ≡ false
    → cr.spec.keycloak.external.public_uri ≡ ""
    → IsKeycloakRouteType cr.spec.keycloak.route.type
    → lacks_node_host r cr ≡ false
    → (request : NamespacedName) (s : State api) → (api.get_horreum request s.world).0 ≡ found cr
    → IsSettled api crypto r cr (observe api s.world)
    → ((reconcile api crypto r request s).0 ≡ ok done)
      × IsReady (reconcile api crypto r request s).1.status
      × (observe api (reconcile api crypto r request s).1.world ≡ observe api s.world)
unfolding reconcile reconcile_found
reconcile-of-IsSettled api crypto r cr quiet answering keeps owns bounded enabled internal valid
      hosted request s there settled =
    let t : State api = record {
      world = (api.get_horreum request s.world).1;
      status = cr.status;
    } in
    let still = answering.horreum_quiet request s.world in
    let (result, ready, unchanged) =
      reconcile_valid-of-IsSettled api crypto r cr quiet keeps owns bounded enabled internal valid t
        (rw still settled) in
    rw (there, hosted) (result, ready, unchanged ∙ still)
