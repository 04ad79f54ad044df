-- ===== src/Scope/Request.antt =====
-- `Reconcile` from the request on.
use horreum_operator.Common.{◌≡◌, ap, ◌∙◌, ◌≢◌, inl, inr, Bool-cases}
use horreum_operator.Objects.{Kind, NamespacedName}
use horreum_operator.Crd.{Horreum, HorreumReconciler}
use horreum_operator.Cluster.{Api, State, Reply-cases}
use horreum_operator.Status.Truthful.{IsQuiet, observe}
use horreum_operator.Status.Keyed.{IsKeyed, IsAnswering}
use horreum_operator.Certs.{Crypto}
use horreum_operator.Ensure.Truthful.{KeepsKeys}
use horreum_operator.Reconcile.{
  lacks_node_host, node_host_message, Result, reconcile_found, reconcile,
}
use horreum_operator.Scope.Rules.{report_error-Confined}
use horreum_operator.Scope.Frame.{IsOffline, Steps-seen, reconcile_valid-outside}

module _ (api : Api) (crypto : Crypto api) (r : HorreumReconciler) (keeps : KeepsKeys api)
    (quiet : IsQuiet api) (apart : IsKeyed api) (offline : IsOffline api crypto) where
  reconcile_found-outside :
      (cr : Horreum) (s : State api) (k : Kind) (key : NamespacedName)
      → key.namespace ≢ cr.metadata.namespace
      → observe api (reconcile_found api crypto r cr s).1.world k key ≡ observe api s.world k key
  unfolding reconcile_found
  reconcile_found-outside cr s k key outside = elim (Bool-cases (lacks_node_host r cr)) [
    | inl refused ↦ rw refused (
        Steps-seen api crypto cr quiet apart offline k key outside (
          (report_error-Confined api crypto cr {A = Result} node_host_message
              (api.new_error node_host_message)).runs
            s))
    | inr valid ↦
        rw valid (reconcile_valid-outside api crypto r cr keeps quiet apart offline s k key outside)
  ]

-- Whatever the reconciliation of a request ends by, error and panic included, it leaves every object
-- outside the namespace of the request as it was, the custom resource missing or turned down included;
-- provided that no one else changes an object meanwhile, that the API server answers by key and changes
-- one object at a time, that keys and certificates are made without the cluster, and that an owner
-- reference keeps an object's name.
pub reconcile-outside :
    (api : Api) (crypto : Crypto api) (r : HorreumReconciler)
    → KeepsKeys api
    → IsQuiet api
    → IsKeyed api
    → IsOffline api crypto
    → IsAnswering api
    → (request : NamespacedName) (s : State api) (k : Kind) (key : NamespacedName)
    → key.namespace ≢ request.namespace
    → observe api (reconcile api crypto r request s).1.world k key ≡ observe api s.world k key
unfolding reconcile
reconcile-outside api crypto r keeps quiet apart offline answering request s k key outside =
    elim (Reply-cases (api.get_horreum request s.world).0) [
      | inr (e, missing) ↦ elim (Bool-cases (api.is_not_found e)) [
        | inl gone ↦ rw (missing, gone) unchanged
        | inr broken ↦ rw (missing, broken) unchanged
      ]
      | inl (cr, there) ↦ rw there (
          reconcile_found-outside api crypto r keeps quiet apart offline cr
            (record { world = (api.get_horreum request s.world).1; status = cr.status }) k key
            (λ e. outside (e ∙ answering.horreum_answered request s.world cr there))
          ∙ unchanged)
    ]
  where
    unchanged : observe api (api.get_horreum request s.world).1 k key ≡ observe api s.world k key
    unchanged = ap (λ f. f k key) (answering.horreum_quiet request s.world)
