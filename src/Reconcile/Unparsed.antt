-- ===== src/Reconcile/Unparsed.antt =====
-- An external address of Keycloak that cannot be parsed: `keycloakPod` returns a nil pointer with a nil
-- error, which `Reconcile` then reads.
use horreum_operator.Common.{
  String, ◌≡◌, refl, ◌≢◌, false, ◌==◌, Option, none, some, string_eq, eq_iff, Bool-cases, inl, inr,
}
use horreum_operator.Objects.{Route}
use horreum_operator.Crd.{Horreum, HorreumReconciler}
use horreum_operator.Cluster.{Api, State, ok, ◌>>=◌}
use horreum_operator.Cluster.Yields.{Yields, pure-Yields, crash-Yields, bind-Yields, last-Yields}
use horreum_operator.Certs.{Crypto}
use horreum_operator.Parts.Keycloak.{keycloak_pod}
use horreum_operator.Routes.{keycloak_route}
use horreum_operator.Reconcile.Phases.{
  start_status, certificates, secrets, postgres, keycloak_url, set_keycloak_url, record_url,
  non_nil, place_keycloak, keycloak_instance, app_url,
}
use horreum_operator.Reconcile.{Result, finish, with_keycloak, reconcile_valid}

module _ (api : Api) (crypto : Crypto api) (r : HorreumReconciler) (cr : Horreum) (uri : String)
    (external : cr.spec.keycloak.external.public_uri ≡ uri) (given : (uri == "") ≡ false)
    (unparsed : api.parse_request_uri uri ≡ none) where
  keycloak_url-Yields :
      (route : Option Route) → Yields (keycloak_url api r cr route) (λ url. url ≡ some uri)
  unfolding keycloak_url record_url
  keycloak_url-Yields route =
      rw (external, given)
        (last-Yields (set_keycloak_url api uri) _ (λ _. pure-Yields (some uri) refl))

  keycloak_pod-unparsed : keycloak_pod api.parse_request_uri cr uri ≡ none
  unfolding keycloak_pod
  keycloak_pod-unparsed = rw (keycloak_pod, unparsed) refl

  keycloak_instance-Yields :
      (route : Option Route) → Yields (keycloak_instance api r cr route uri) (λ _. ⊥)
  unfolding keycloak_instance
  keycloak_instance-Yields route =
      bind-Yields (non_nil api (keycloak_pod api.parse_request_uri cr uri))
        (place_keycloak api r cr route) (rw keycloak_pod-unparsed crash-Yields) (λ _ h. absurd h)

  with_keycloak-Yields :
      (route : Option Route) (url : Option String)
      → url ≡ some uri
      → Yields (with_keycloak api crypto r cr route url) (λ _. ⊥)
  unfolding with_keycloak
  with_keycloak-Yields route url e = rw e (
      bind-Yields (keycloak_instance api r cr route uri)
        (λ _. app_url api r cr >>= finish api crypto r cr uri) (keycloak_instance-Yields route)
        (λ _ h. absurd h))

  reconcile_valid-Yields : Yields (reconcile_valid api crypto r cr) (λ _. ⊥)
  unfolding reconcile_valid
  reconcile_valid-Yields = last-Yields (start_status api cr) _ (λ _.
      last-Yields (certificates api crypto r cr) _ (λ _. last-Yields (secrets api cr) _ (λ _.
        last-Yields (postgres api r cr) _ (λ _. last-Yields (keycloak_route api cr r) _ (λ route.
          bind-Yields (keycloak_url api r cr route) _ (keycloak_url-Yields route)
            (λ url e. with_keycloak-Yields route url e))))))

-- With an external address of Keycloak that is given and cannot be parsed, no reconciliation ends by a
-- value, neither done nor asking for another request: it ends by an error or by a panic.
pub unparsed_uri-ne-ok :
    (api : Api) (crypto : Crypto api) (r : HorreumReconciler) (cr : Horreum) (result : Result)
    → cr.spec.keycloak.external.public_uri ≢ ""
    → api.parse_request_uri cr.spec.keycloak.external.public_uri ≡ none
    → (s : State api) → (reconcile_valid api crypto r cr s).0 ≢ ok result
unparsed_uri-ne-ok api crypto r cr result given unparsed s e =
    let uri = cr.spec.keycloak.external.public_uri in
    elim (Bool-cases (uri == "")) [
      | inl blank ↦ given ((eq_iff uri "").0 blank)
      | inr differs ↦
          (reconcile_valid-Yields api crypto r cr uri refl differs unparsed).holds s result e
    ]
