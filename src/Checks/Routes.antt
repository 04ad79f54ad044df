-- ===== src/Checks/Routes.antt =====
-- What `compareRoute` decides.
use horreum_operator.Common.{
  ◌≡◌, refl, ◌↔◌, ◌≢◌, ◌⊎◌, true, Option, none, some, arith, string_eq, eq_iff,
}
use horreum_operator.Objects.{TlsConfig, Route, route_object}
use horreum_operator.Checks.Compare.{deep_equal, compare_route}

same_config :
    (a b : TlsConfig)
    → a.termination ≡ b.termination
    → a.insecure_edge_termination_policy ≡ b.insecure_edge_termination_policy
    → a.certificate ≡ b.certificate
    → a.key ≡ b.key
    → a.ca_certificate ≡ b.ca_certificate
    → a.destination_ca_certificate ≡ b.destination_ca_certificate
    → a ≡ b
same_config a b e1 e2 e3 e4 e5 e6 = cc

deep_equal_iff : (a b : Option TlsConfig) → (deep_equal a b ≡ true) ↔ (a ≡ b)
unfolding deep_equal
deep_equal_iff none none = (λ _. refl, λ _. refl)
deep_equal_iff none (some b) = ground arith
deep_equal_iff (some a) none = ground arith
deep_equal_iff (some a) (some b) = ground (
  arith,
  eq_iff a.termination b.termination,
  eq_iff a.insecure_edge_termination_policy b.insecure_edge_termination_policy,
  eq_iff a.certificate b.certificate,
  eq_iff a.key b.key,
  eq_iff a.ca_certificate b.ca_certificate,
  eq_iff a.destination_ca_certificate b.destination_ca_certificate,
  same_config a b,
)

-- Two routes compare as equal exactly when the first names a host and they agree on the host and on
-- the TLS configuration, or the first names no host and they agree on the subdomain. In the second
-- case the TLS configurations are not looked at, so that a change of them is not noticed.
pub compare_route_iff :
    (r1 r2 : Route)
    → (compare_route (route_object r1) (route_object r2) ≡ true) ↔ (
        ((r1.spec.host ≢ "") × (r1.spec.host ≡ r2.spec.host) × (r1.spec.tls ≡ r2.spec.tls))
        ⊎ ((r1.spec.host ≡ "") × (r1.spec.subdomain ≡ r2.spec.subdomain)))
unfolding compare_route
compare_route_iff r1 r2 = ground (
  arith,
  eq_iff r1.spec.host "",
  eq_iff r1.spec.host r2.spec.host,
  eq_iff r1.spec.subdomain r2.spec.subdomain,
  deep_equal_iff r1.spec.tls r2.spec.tls,
)
