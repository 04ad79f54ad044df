-- ===== src/Steady/Routing.antt =====
-- The routes that are planned.
use Prim.Native.String.{String}
use horreum_operator.Common.{
  ◌≡◌, refl, sym, ap, ◌∙◌, ◌≢◌, ◌⊎◌, inl, inr, false, ◌==◌, ◌!=◌, ◌&&◌, ◌<>◌, Bool-cases, not,
  Option, none, some, arith, string_eq, eq_iff, if◌then◌else◌,
}
use horreum_operator.Common.Int.{int_eq}
use horreum_operator.Objects.{Kind, Secret, Route, TlsConfig, empty_secret}
use horreum_operator.Crd.{Horreum, HorreumReconciler, RouteSpec}
use horreum_operator.Cluster.{Api, Reply, found, failed, pure, raise, ◌>>◌}
use horreum_operator.Status.Truthful.{Observation, IsQuiet}
use horreum_operator.Routes.{
  termination_of, secret_config, passthrough_config, route_with, fetch_tls_secret, tls_secret,
  tls_from_secret, tls, route, keycloak_route, app_route,
}
use horreum_operator.Status.{update_status}
use horreum_operator.Steady.{
  IsSteady, pure-IsSteady, weaken-IsSteady, then-IsSteady, else-IsSteady, bind-IsSteady,
}
use horreum_operator.Steady.Ensure.{get-IsSteady}

-- The secret with the certificates of the routes: an empty one if none is named.
abbrev pub IsTlsSecret : (api : Api) → Observation api → Horreum → Secret → Type 0
IsTlsSecret api o cr secret =
    ((cr.spec.route.tls ≡ "") × (secret ≡ empty_secret))
    ⊎ ((cr.spec.route.tls ≢ "")
        × (o Kind.secret (record { namespace = cr.metadata.namespace; name = cr.spec.route.tls })
            ≡ found secret))

-- The configuration of the routes: none for the type http, and certificates for the types that need
-- them.
abbrev pub IsTlsConfig : Horreum → Secret → Option TlsConfig → Type 0
IsTlsConfig cr secret config =
    ((cr.spec.route.type ≡ "http") × (config ≡ none))
    ⊎ ((cr.spec.route.type ≡ "passthrough") × (config ≡ some passthrough_config))
    ⊎ ((cr.spec.route.type ≢ "http")
        × (cr.spec.route.type ≢ "passthrough")
        × ((termination : String) × (termination_of cr.spec.route.type ≡ some termination)
            × (config ≡ some (secret_config termination secret))))

-- The types that a route of Keycloak may have.
abbrev pub IsKeycloakRouteType : String → Type 0
IsKeycloakRouteType type = (type ≡ "passthrough") ⊎ (type ≡ "reencrypt") ⊎ (type ≡ "")

-- The route for a specification and a suffix: none where the cluster has no routes.
abbrev pub planned_route :
    HorreumReconciler → Horreum → RouteSpec → String → Option TlsConfig → Option Route
planned_route r cr spec suffix config =
    if r.routes_available then some (route_with spec suffix cr config) else none

module _ (api : Api) (o : Observation api) (quiet : IsQuiet api) where
  module _ (cr : Horreum) (secret : Secret) (there : IsTlsSecret api o cr secret) where
    tls_secret-IsSteady :
        (spec : RouteSpec) → IsSteady api o (tls_secret api cr spec) (λ s. s ≡ secret)
    unfolding tls_secret fetch_tls_secret
    tls_secret-IsSteady spec = elim there [
      | inl (blank, e) ↦
          else-IsSteady api o (cr.spec.route.tls != "") _ _ (ap not ((eq_iff _ "").1 blank))
            (pure-IsSteady api o (λ s. s ≡ secret) empty_secret (sym e))
      | inr (named, e) ↦
          then-IsSteady api o (cr.spec.route.tls != "") _ _
            (ground (arith, named, eq_iff cr.spec.route.tls ""))
            (bind-IsSteady api o _ _ _ (get-IsSteady api o quiet Kind.secret _)
              (λ reply answer. from reply (sym answer ∙ e)))
    ]
      where
        from :
            (reply : Reply api.Error Secret)
            → reply ≡ found secret
            → IsSteady api o
                (elim reply [
                  | found s ↦ pure s
                  | failed e ↦
                      update_status api cr "Error" ("Cannot find secret " <> spec.tls) >> raise e
                ])
                (λ s. s ≡ secret)
        from reply e = rw e (pure-IsSteady api o (λ s. s ≡ secret) secret refl)

    tls_from_secret-IsSteady :
        (spec : RouteSpec) (termination : String)
        → termination_of cr.spec.route.type ≡ some termination
        → IsSteady api o
            (tls_from_secret api cr spec)
            (λ c. c ≡ some (secret_config termination secret))
    unfolding tls_from_secret
    tls_from_secret-IsSteady spec termination e =
        bind-IsSteady api o _ _ _ (tls_secret-IsSteady spec)
          (λ s same. from s same (termination_of cr.spec.route.type) e)
      where
        from :
            (s : Secret)
            → s ≡ secret
            → (t : Option String) → t ≡ some termination
            → IsSteady api o
                (elim t [
                  | some t' ↦ pure (some (secret_config t' s))
                  | none ↦ raise (api.new_error ("Invalid route type: " <> cr.spec.route.type))
                ])
                (λ c. c ≡ some (secret_config termination secret))
        from s same t chosen = rw chosen (
            pure-IsSteady api o (λ c. c ≡ some (secret_config termination secret))
              (some (secret_config termination s)) (rw same refl))

    tls-IsSteady :
        (spec : RouteSpec) (config : Option TlsConfig)
        → IsTlsConfig cr secret config
        → IsSteady api o (tls api cr spec) (λ c. c ≡ config)
    unfolding tls
    tls-IsSteady spec config (inl (e, none_made)) =
        then-IsSteady api o (cr.spec.route.type == "http") _ _ ((eq_iff _ _).1 e)
          (pure-IsSteady api o _ _ (sym none_made))
    tls-IsSteady spec config (inr (inl (e, passed))) =
        let other : (cr.spec.route.type == "http") ≡ false =
          ground (arith, e, eq_iff cr.spec.route.type "http", eq_iff "passthrough" "http") in
        else-IsSteady api o (cr.spec.route.type == "http") _ _ other (
          then-IsSteady api o (cr.spec.route.type == "passthrough") _ _ ((eq_iff _ _).1 e)
            (pure-IsSteady api o _ _ (sym passed)))
    tls-IsSteady spec config (inr (inr (secure, ends, (termination, e, made)))) =
        else-IsSteady api o (cr.spec.route.type == "http") _ _
          (ground (arith, secure, eq_iff cr.spec.route.type "http"))
          (else-IsSteady api o (cr.spec.route.type == "passthrough") _ _
            (ground (arith, ends, eq_iff cr.spec.route.type "passthrough"))
            (weaken-IsSteady api o (λ c h. h ∙ sym made)
              (tls_from_secret-IsSteady spec termination e)))

    module _ (config : Option TlsConfig) (planned : IsTlsConfig cr secret config)
        (r : HorreumReconciler) where
      route-IsSteady :
          (spec : RouteSpec) (suffix : String)
          → IsSteady api o
              (route api spec suffix cr r)
              (λ made. made ≡ planned_route r cr spec suffix config)
      unfolding route
      route-IsSteady spec suffix = elim (Bool-cases r.routes_available) [
        | inl e ↦ rw e (
            bind-IsSteady api o _ _ _ (tls-IsSteady spec config planned) (λ c same.
              pure-IsSteady api o _ (some (route_with spec suffix cr c))
                (ap (λ x. some (route_with spec suffix cr x)) same)))
        | inr e ↦ rw e (pure-IsSteady api o _ _ refl)
      ]

      pub app_route-IsSteady :
          IsSteady api o
            (app_route api cr r)
            (λ made. made ≡ planned_route r cr cr.spec.route "" config)
      unfolding app_route
      app_route-IsSteady = route-IsSteady cr.spec.route ""

      pub keycloak_route-IsSteady :
          IsKeycloakRouteType cr.spec.keycloak.route.type
          → IsSteady api o
              (keycloak_route api cr r)
              (λ made. made ≡ planned_route r cr cr.spec.keycloak.route "-keycloak" config)
      unfolding keycloak_route
      keycloak_route-IsSteady valid =
          else-IsSteady api o
            (cr.spec.keycloak.route.type != "passthrough"
              && cr.spec.keycloak.route.type != "reencrypt"
              && cr.spec.keycloak.route.type != "")
            _ _
            (ground (
              arith,
              valid,
              eq_iff cr.spec.keycloak.route.type "passthrough",
              eq_iff cr.spec.keycloak.route.type "reencrypt",
              eq_iff cr.spec.keycloak.route.type "",
            ))
            (route-IsSteady cr.spec.keycloak.route "-keycloak")
