-- ===== src/Reconcile/LoadBalancer.antt =====
-- Services of the type LoadBalancer: `getLoadBalancer`, and `Reconcile` with such a service for the
-- application, phase by phase.
use horreum_operator.Common.{String, ◌≡◌, refl, ◌≢◌, ◌⊎◌, inl, inr, Option, none, some, string_eq}
use horreum_operator.Objects.{Kind, key_of, Service, Route, service_type_load_balancer}
use horreum_operator.Crd.{Horreum, HorreumReconciler}
use horreum_operator.Cluster.{
  Api, State, M, Reply, found, failed, Reply-cases, panic, ok, pure, ◌>>=◌,
}
use horreum_operator.Cluster.Yields.{Yields, pure-Yields, crash-Yields, bind-Yields, last-Yields}
use horreum_operator.Certs.{Crypto}
use horreum_operator.Parts.Service.{is_node_port}
use horreum_operator.Urls.{load_balancer_url, get_load_balancer, get_service}
use horreum_operator.Parts.App.{app_service}
use horreum_operator.Checks.{compare_service, nocheck}
use horreum_operator.Routes.{keycloak_route, app_route}
use horreum_operator.Reconcile.Phases.{
  keep, start_status, certificates, secrets, postgres, keycloak_url, keycloak_instance, await_url,
  exposed_url, record_url, app_url, set_public_url,
}
use horreum_operator.Reconcile.{Result, done, requeue, finish, with_keycloak, reconcile_valid}

done-ne-requeue : ◌≢◌ {A = Result} done requeue
done-ne-requeue h = cc

module _ (api : Api) where
  get_load_balancer-Yields : (s : Service) → Yields (get_load_balancer api s) (λ url. url ≡ "")
  unfolding get_load_balancer
  get_load_balancer-Yields s = last-Yields (get_service api s) _ λ reply. from reply
    where
      from :
          (reply : Reply api.Error Service)
          → Yields {S = State api} {E = api.Error} {A = String}
              (elim reply [ failed _ ↦ load_balancer_url api none | found _ ↦ pure "" ])
              (λ url. url ≡ "")
      from (failed e) = crash-Yields
      from (found svc) = pure-Yields "" refl

  module _ (r : HorreumReconciler) (cr : Horreum) where
    await_url-Yields :
        (reason url : String) → url ≡ "" → Yields (await_url api cr reason url) (λ u. u ≡ none)
    unfolding await_url
    await_url-Yields reason url e = rw e (last-Yields _ _ (λ _. pure-Yields none refl))

    exposed_url-LoadBalancer :
        (t : String) (service : Service) (route : Option Route) (port_reason url_reason : String)
        → t ≡ service_type_load_balancer
        → Yields (exposed_url api r cr t service route port_reason url_reason) (λ u. u ≡ none)
    unfolding exposed_url is_node_port
    exposed_url-LoadBalancer t service route port_reason url_reason e = rw e (
        bind-Yields (get_load_balancer api service) _ (get_load_balancer-Yields service)
          (λ url blank. await_url-Yields url_reason url blank))

    record_url-Yields :
        (write : String → M api (Unit {0})) (url : Option String)
        → url ≡ none
        → Yields (record_url api write url) (λ u. u ≡ none)
    unfolding record_url
    record_url-Yields write url blank = rw blank (pure-Yields none refl)

    app_url-LoadBalancer :
        cr.spec.service_type ≡ service_type_load_balancer
        → Yields (app_url api r cr) (λ u. u ≡ none)
    unfolding app_url
    app_url-LoadBalancer e = last-Yields (app_route api cr r) _ (λ route.
        last-Yields (keep api cr Kind.service (app_service cr r) compare_service nocheck) _ (λ _.
          bind-Yields
            (exposed_url api r cr cr.spec.service_type (app_service cr r) route
              "Waiting for service node port" "Waiting for Horreum service URL")
            _
            (exposed_url-LoadBalancer cr.spec.service_type (app_service cr r) route
              "Waiting for service node port" "Waiting for Horreum service URL" e)
            (λ url blank. record_url-Yields (set_public_url api) url blank)))

    module _ (crypto : Crypto api)
        (balanced : cr.spec.service_type ≡ service_type_load_balancer) where
      with_keycloak-LoadBalancer :
          (route : Option Route) (url : Option String)
          → Yields (with_keycloak api crypto r cr route url) (λ result. result ≡ requeue)
      unfolding with_keycloak finish
      with_keycloak-LoadBalancer route none = pure-Yields requeue refl
      with_keycloak-LoadBalancer route (some url) =
          last-Yields (keycloak_instance api r cr route url) _ (λ _.
            bind-Yields (app_url api r cr) _ (app_url-LoadBalancer balanced)
              (λ u blank. finish-Yields u blank))
        where
          finish-Yields :
              (u : Option String)
              → u ≡ none
              → Yields (finish api crypto r cr url u) (λ result. result ≡ requeue)
          finish-Yields u blank = rw blank (pure-Yields requeue refl)

      reconcile_valid-Yields : Yields (reconcile_valid api crypto r cr) (λ result. result ≡ requeue)
      unfolding reconcile_valid
      reconcile_valid-Yields = last-Yields (start_status api cr) _ (λ _.
          last-Yields (certificates api crypto r cr) _ (λ _. last-Yields (secrets api cr) _ (λ _.
            last-Yields (postgres api r cr) _ (λ _.
              last-Yields (keycloak_route api cr r) _ (λ route.
                last-Yields (keycloak_url api r cr route) _
                  (λ url. with_keycloak-LoadBalancer route url))))))

-- With a service of the type LoadBalancer for the application no reconciliation is ever done: from any
-- state it ends by an error, by a panic or by another request, whatever address the service has.
pub LoadBalancer-ne-done :
    (api : Api) (crypto : Crypto api) (r : HorreumReconciler) (cr : Horreum)
    → cr.spec.service_type ≡ service_type_load_balancer
    → (s : State api) → (reconcile_valid api crypto r cr s).0 ≢ ok done
LoadBalancer-ne-done api crypto r cr balanced s e =
    done-ne-requeue ((reconcile_valid-Yields api r cr crypto balanced).holds s done e)

-- The URL of a service of the type LoadBalancer is "" if the service can be read, whatever its
-- addresses are, and the operator panics if it cannot, whatever the error is.
pub get_load_balancer_lem :
    (api : Api) (service : Service) (s : State api)
    → ((svc : Service) × ((api.get Kind.service (key_of service.metadata) s.world).0 ≡ found svc)
        × ((get_load_balancer api service s).0 ≡ ok ""))
      ⊎ ((e : api.Error) × ((api.get Kind.service (key_of service.metadata) s.world).0 ≡ failed e)
          × ((get_load_balancer api service s).0 ≡ panic))
unfolding get_load_balancer get_service load_balancer_url
get_load_balancer_lem api service s =
    elim (Reply-cases (api.get Kind.service (key_of service.metadata) s.world).0) [
      | inl (svc, e) ↦ inl (svc, e, rw (e, ◌>>=◌) refl)
      | inr (x, e) ↦ inr (x, e, rw (e, ◌>>=◌) refl)
    ]
