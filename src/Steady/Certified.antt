-- ===== src/Steady/Certified.antt =====
-- Certificates that are all there.
use horreum_operator.Common.{
  String, ◌<>◌, ◌≡◌, refl, ap, ◌⊎◌, inl, inr, true, false, not, some, if◌then◌else◌,
}
use horreum_operator.Common.Int.{ℤ}
use horreum_operator.Objects.{Kind, Resource, Secret, tls_cert_key, tls_private_key_key}
use horreum_operator.Crd.{Horreum, HorreumReconciler}
use horreum_operator.Cluster.{Api, found, failed, pure, raise}
use horreum_operator.Status.Truthful.{Observation, IsQuiet}
use horreum_operator.Routes.{text_at}
use horreum_operator.Checks.{nocompare, nocheck}
use horreum_operator.Checks.Faults.{nocompare-IgnoresMeta}
use horreum_operator.Ensure.Truthful.{KeepsKeys, IsHealthy}
use horreum_operator.Certs.RoundTrip.{load_ca-readable}
use horreum_operator.Certs.{
  Crypto, Certificate, load_ca, new_ca, obtain_ca, create_ca_config_map, ensure_ca_config_map,
  create_ca, new_service_cert, create_service_cert,
}
use horreum_operator.Reconcile.{service_ca_config_map, certificates}
use horreum_operator.Steady.{
  Steady, pure-IsSteady, then-IsSteady, else-IsSteady, bind-IsSteady, after-IsSteady,
}
use horreum_operator.Steady.Ensure.{CanOwn, found-IsSteady, ensure_same-IsSteady}

module _ (api : Api) (crypto : Crypto api) (o : Observation api) where
  -- An object of this name in the namespace of the custom resource.
  abbrev pub IsPresent : Horreum → Kind → String → Type 0
  IsPresent cr k name =
      (object : Resource k) × (o k (record { namespace = cr.metadata.namespace; name = name })
        ≡ found object)

  -- The certificate and the key of the secret can be decoded and parsed.
  abbrev pub IsAuthority : Secret → Type 0
  IsAuthority secret =
      (cert_bytes key_bytes : String) × (ca : Certificate) × (key : crypto.PrivateKey)
      × (crypto.pem_decode (text_at tls_cert_key secret.data_map) ≡ some cert_bytes)
      × (crypto.parse_certificate cert_bytes ≡ found ca)
      × (crypto.pem_decode (text_at tls_private_key_key secret.data_map) ≡ some key_bytes)
      × (crypto.parse_private_key key_bytes ≡ found key)

  -- On OpenShift the config map that asks for the certificates, elsewhere the authority with its config
  -- map, and the certificates of both services.
  abbrev pub IsCertified : HorreumReconciler → Horreum → Type 0
  IsCertified r cr =
      ((r.routes_available ≡ true)
        × IsHealthy api o Kind.config_map (service_ca_config_map cr) nocompare nocheck)
      ⊎ ((r.routes_available ≡ false)
          × ((secret : Secret) × (o Kind.secret (record {
            namespace = cr.metadata.namespace;
            name = cr.metadata.name <> "-ca-certs";
          })
                ≡ found secret)
              × IsAuthority secret)
          × IsPresent cr Kind.config_map "service-ca.crt"
          × IsPresent cr Kind.secret (cr.metadata.name <> "-app-certs")
          × IsPresent cr Kind.secret (cr.metadata.name <> "-keycloak-certs"))

  module _ (quiet : IsQuiet api) (cr : Horreum) where
    load_ca-Steady :
        (secret : Secret) → IsAuthority secret → Steady api o (load_ca api crypto secret)
    load_ca-Steady secret
          (cert_bytes, key_bytes, ca, key, cert_there, cert_parsed, key_there, key_parsed) =
        record {
          stays = λ s seen ready.
              rw
                (load_ca-readable api crypto secret cert_bytes key_bytes ca key s cert_there
                  cert_parsed key_there key_parsed)
                ((ca, key, text_at tls_cert_key secret.data_map), refl, tt, seen, ready);
        }

    ensure_ca_config_map-Steady :
        (ca_pem : String)
        → IsPresent cr Kind.config_map "service-ca.crt"
        → Steady api o (ensure_ca_config_map api crypto cr ca_pem)
    unfolding ensure_ca_config_map
    ensure_ca_config_map-Steady ca_pem (object, there) =
        found-IsSteady api o quiet Kind.config_map _ object
          (λ reply. elim reply [
            | failed e ↦
                if api.is_not_found e then create_ca_config_map api crypto cr ca_pem else raise e
            | found _ ↦ pure tt
          ])
          there (pure-IsSteady api o _ tt tt)

    create_service_cert-Steady :
        (ca : Certificate) (key : crypto.PrivateKey) (resource_name service_name : String)
        (serial : ℤ)
        → IsPresent cr Kind.secret resource_name
        → Steady api o (create_service_cert api crypto cr ca key resource_name service_name serial)
    unfolding create_service_cert
    create_service_cert-Steady ca key resource_name service_name serial (object, there) =
        found-IsSteady api o quiet Kind.secret _ object
          (λ reply. elim reply [
            | found _ ↦ pure tt
            | failed e ↦
                if api.is_not_found e
                then new_service_cert api crypto cr ca key resource_name service_name serial
                else raise e
          ])
          there (pure-IsSteady api o _ tt tt)

    create_ca-Steady :
        (secret : Secret)
        → o Kind.secret
            (record { namespace = cr.metadata.namespace; name = cr.metadata.name <> "-ca-certs" })
          ≡ found secret
        → IsAuthority secret
        → IsPresent cr Kind.config_map "service-ca.crt"
        → Steady api o (create_ca api crypto cr)
    unfolding create_ca obtain_ca
    create_ca-Steady secret there authority bundle =
        after-IsSteady api o _ _
          (found-IsSteady api o quiet Kind.secret _ secret
            (λ reply. elim reply [
              | failed e ↦ if api.is_not_found e then new_ca api crypto cr else raise e
              | found s ↦ load_ca api crypto s
            ])
            there (load_ca-Steady secret authority))
          (λ (ca, key, ca_pem).
            after-IsSteady api o _ _ (ensure_ca_config_map-Steady ca_pem bundle)
              (λ _. pure-IsSteady api o _ (ca, key) tt))

    pub certificates-Steady :
        KeepsKeys api
        → CanOwn api cr
        → (r : HorreumReconciler) → IsCertified r cr
        → Steady api o (certificates api crypto r cr)
    unfolding certificates
    certificates-Steady keeps owns r (inl (routes, healthy)) =
        else-IsSteady api o (not r.routes_available) _ _ (ap not routes) (
          bind-IsSteady api o _ _ _
            (ensure_same-IsSteady api o quiet cr keeps owns Kind.config_map
              (service_ca_config_map cr) nocompare nocheck (nocompare-IgnoresMeta Kind.config_map)
              healthy)
            (λ _ _. pure-IsSteady api o _ tt tt))
    certificates-Steady keeps owns r
          (inr (none_there, (secret, there, authority), bundle, app, keycloak)) =
        then-IsSteady api o (not r.routes_available) _ _ (ap not none_there) (
          after-IsSteady api o _ _ (create_ca-Steady secret there authority bundle) (λ ca.
            after-IsSteady api o _ _ (create_service_cert-Steady ca.0 ca.1 _ _ _ app)
              (λ _. create_service_cert-Steady ca.0 ca.1 _ _ _ keycloak)))
