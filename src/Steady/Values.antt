-- ===== src/Steady/Values.antt =====
-- The passwords and secrets that are made, and the node ports that are read.
use Prim.Native.Char.{Char}
use Prim.Native.String.{String}
use horreum_operator.Common.{
  ℕ, zero, suc, ◌<◌, ◌≡◌, refl, sym, ◌∙◌, ◌≢◌, none, some, List, [], ◌∷◌, length, get_elem?, arith,
  string_eq,
}
use mathlib.Core.Path.{subst}
use horreum_operator.Common.Int.{ℤ, pos, int_eq}
use horreum_operator.Objects.{Kind, Service, ServicePort, key_of}
use horreum_operator.Crd.{Horreum}
use horreum_operator.Cluster.{Api, Reply, found, failed, call, pure, raise, crash}
use horreum_operator.Status.Truthful.{Observation, IsQuiet}
use horreum_operator.Secrets.{chars, fill, generate_password, new_secret}
use horreum_operator.Secrets.Passwords.{IsBounded, get_elem?-in_range}
use horreum_operator.Urls.{host_port_url, get_service, get_node_port}
use horreum_operator.Steady.{
  IsSteady, Steady, pure-IsSteady, weaken-IsSteady, bind-IsSteady, after-IsSteady, call-IsSteady,
}
use horreum_operator.Steady.Ensure.{get-IsSteady}

module _ (api : Api) (o : Observation api) (quiet : IsQuiet api) where
  module _ (bounded : IsBounded api) where
    rand-IsSteady : IsSteady api o (call api (api.rand_intn (length chars))) (λ i. i < length chars)
    rand-IsSteady =
        weaken-IsSteady api o
          (λ i (w, seen, e).
            subst (λ j. j < length chars) e (bounded (length chars) w (omega arith)))
          (call-IsSteady api o (api.rand_intn (length chars)) (quiet.rand_quiet (length chars)))

    fill-Steady : (n : ℕ) → Steady api o (fill api n)
    unfolding fill
    fill-Steady zero = pure-IsSteady api o _ "" tt
    fill-Steady (suc n) = bind-IsSteady api o _ _ _ rand-IsSteady (λ i below.
        after-IsSteady api o _ _ (picked i (get_elem?-in_range chars i below)) (λ c.
          after-IsSteady api o _ _ (fill-Steady n)
            (λ rest. pure-IsSteady api o _ (String.◌∷◌ c rest) tt)))
      where
        picked :
            (i : ℕ)
            → (c : Char) × (get_elem? chars i ≡ some c)
            → Steady api o {A = Char} (elim (get_elem? chars i) [ some c ↦ pure c | none ↦ crash ])
        picked i (c, e) = rw e (pure-IsSteady api o _ c tt)

    pub generate_password-Steady : Steady api o (generate_password api)
    unfolding generate_password
    generate_password-Steady =
        after-IsSteady api o _ _
          (weaken-IsSteady api o (λ _ _. tt)
            (call-IsSteady api o (λ w. (tt {0}, api.seed w)) quiet.seed_quiet))
          (λ _. fill-Steady 16)

    pub new_secret-IsSteady :
        (cr : Horreum) (name : String)
        → IsSteady api o
            (new_secret api cr name)
            (λ s. key_of s.metadata ≡ record { namespace = cr.metadata.namespace; name = name })
    unfolding new_secret
    new_secret-IsSteady cr name =
        after-IsSteady api o _ _ generate_password-Steady (λ p. pure-IsSteady api o _ _ refl)

  -- The service has a node port, and this is its URL.
  abbrev pub IsNodePortUrl : Horreum → Service → String → Type 0
  IsNodePortUrl cr service url =
      (svc : Service) × (p : ServicePort) × (rest : List ServicePort) × (o Kind.service
          (key_of service.metadata)
        ≡ found svc)
      × (svc.spec.ports ≡ p ∷ rest)
      × (p.node_port ≢ pos 0)
      × (url ≡ host_port_url cr.spec.node_host p.node_port)

  pub get_node_port-IsSteady :
      (service svc : Service) (p : ServicePort) (rest : List ServicePort)
      → o Kind.service (key_of service.metadata) ≡ found svc
      → svc.spec.ports ≡ p ∷ rest
      → IsSteady api o (get_node_port api service) (λ port. port ≡ p.node_port)
  unfolding get_node_port get_service
  get_node_port-IsSteady service svc p rest there ports =
      bind-IsSteady api o _ _ _ (get-IsSteady api o quiet Kind.service (key_of service.metadata))
        (λ reply answer. from reply (sym answer ∙ there))
    where
      from :
          (reply : Reply api.Error Service)
          → reply ≡ found svc
          → IsSteady api o {A = ℤ}
              (elim reply [
                | failed e ↦ raise e
                | found s ↦ elim s.spec.ports [ [] ↦ crash | q ∷ _ ↦ pure q.node_port ]
              ])
              (λ port. port ≡ p.node_port)
      from reply e =
          rw (e, ports) (pure-IsSteady api o (λ port. port ≡ p.node_port) p.node_port refl)
