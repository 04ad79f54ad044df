-- ===== src/Certs.antt =====
-- controllers/certificates.go: the certificate authority and the certificates of the services.
mod Templates
pub mod RoundTrip
pub mod Still
pub mod Authority
pub mod Names
unfoldable pub use Templates.*
use Prim.Native.String.{len}
use horreum_operator.Common.{String, ◌<>◌, Option, none, some, [], ◌∷◌, if◌then◌else◌}
use horreum_operator.Common.Int.{ℤ, pos, itoa}
use horreum_operator.Objects.{
  Kind, Secret, ConfigMap, empty_meta, empty_config_map, tls_cert_key, tls_private_key_key,
}
use horreum_operator.Crd.{Horreum}
use horreum_operator.Cluster.{Api, M, found, failed, call, pure, raise, from_reply, ◌>>=◌, ◌>>◌}
use horreum_operator.Routes.{text_at}
use horreum_operator.Status.{update_status}

module _ (api : Api) (crypto : Crypto api) where
  open crypto use {
    PrivateKey, generate_key, create_certificate, parse_certificate, marshal_private_key,
    parse_private_key, pem_encode, pem_decode, add_years,
  }

  -- `SetControllerReference` on a secret and `Create`, with the error if there is one.
  unfoldable pub create_owned_secret : Horreum → Secret → M api (Option api.Error)
  create_owned_secret cr secret = elim (api.set_controller_reference cr secret.metadata) [
    | failed e ↦ raise e
    | found m ↦ call api (api.create Kind.secret (record secret { metadata = m }))
  ]

  -- The branch of a CA that does not exist: the certificate, its key and the certificate as PEM.
  unfoldable pub new_ca : Horreum → M api (Certificate × PrivateKey × String)
  unfolding ca_template create_owned_secret
  new_ca cr = do
    key_reply ← call api (generate_key 4096)
    key ← from_reply key_reply
    start ← call api api.now
    now ← call api api.now
    let ca = ca_template api crypto start now
    bytes_reply ← call api (create_certificate ca ca key key)
    bytes ← from_reply bytes_reply
    let ca_pem = pem_encode "CERTIFICATE" bytes
    error ← create_owned_secret cr (
        certs_secret api crypto cr (cr.metadata.name <> "-ca-certs") ca_pem
          (key_pem api crypto key))
    elim error [
      | none ↦ pure (ca, key, ca_pem)
      | some e ↦ update_status api cr "Error" "Cannot create CA private key secret" >> raise e
    ]

  -- `pem.Decode`, with the error of an empty result
  abbrev pub decode_or : String → String → M api String
  decode_or text what = elim (pem_decode text) [
    | some bytes ↦ pure bytes
    | none ↦ raise (api.new_error what)
  ]

  -- The branch of a CA that exists.
  unfoldable pub load_ca : Secret → M api (Certificate × PrivateKey × String)
  load_ca secret = do
    let ca_pem = text_at tls_cert_key secret.data_map
    let key_pem = text_at tls_private_key_key secret.data_map
    cert_bytes ←
        decode_or ca_pem
          ("cannot decode service-ca certificate (" <> itoa (pos (len ca_pem)) <> " bytes)")
    ca ← from_reply (parse_certificate cert_bytes)
    key_bytes ←
        decode_or key_pem
          ("cannot decode service-ca private key (" <> itoa (pos (len key_pem)) <> " bytes)")
    key ← from_reply (parse_private_key key_bytes)
    pure (ca, key, ca_pem)

  unfoldable pub ca_config_map : Horreum → String → ConfigMap
  ca_config_map cr ca_pem = record empty_config_map {
    metadata = record empty_meta { name = "service-ca.crt"; namespace = cr.metadata.namespace };
    binary_data = ("service-ca.crt", ca_pem) ∷ [];
  }

  unfoldable pub create_ca_config_map : Horreum → String → M api (Unit {0})
  unfolding ca_config_map
  create_ca_config_map cr ca_pem = do
    m ← from_reply (api.set_controller_reference cr (ca_config_map cr ca_pem).metadata)
    error ←
        call api (api.create Kind.config_map (record (ca_config_map cr ca_pem) { metadata = m }))
    elim error [ none ↦ pure tt | some e ↦ raise e ]

  -- The config map with the certificate of the CA, which is left alone if it exists.
  unfoldable pub ensure_ca_config_map : Horreum → String → M api (Unit {0})
  unfolding create_ca_config_map
  ensure_ca_config_map cr ca_pem = do
    reply ← call api (
        api.get Kind.config_map
          (record { namespace = cr.metadata.namespace; name = "service-ca.crt" }))
    elim reply [
      | failed e ↦ if api.is_not_found e then create_ca_config_map cr ca_pem else raise e
      | found _ ↦ pure tt
    ]

  -- The CA of the secret, or a new one.
  unfoldable pub obtain_ca : Horreum → M api (Certificate × PrivateKey × String)
  unfolding new_ca load_ca
  obtain_ca cr = do
    reply ← call api (
        api.get Kind.secret
          (record { namespace = cr.metadata.namespace; name = cr.metadata.name <> "-ca-certs" }))
    elim reply [
      | failed e ↦ if api.is_not_found e then new_ca cr else raise e
      | found secret ↦ load_ca secret
    ]

  unfoldable pub create_ca : Horreum → M api (Certificate × PrivateKey)
  unfolding obtain_ca ensure_ca_config_map
  create_ca cr = do (ca, key, ca_pem) ← obtain_ca cr; ensure_ca_config_map cr ca_pem; pure (ca, key)

  -- The branch of a certificate that does not exist.
  unfoldable pub new_service_cert :
      Horreum → Certificate → PrivateKey → String → String → ℤ → M api (Unit {0})
  unfolding service_template create_owned_secret
  new_service_cert cr ca ca_key resource_name service_name serial = do
    start ← call api api.now
    now ← call api api.now
    let template = service_template api crypto cr service_name serial start now
    key_reply ← call api (generate_key 4096)
    key ← from_reply key_reply
    bytes_reply ← call api (create_certificate template ca key ca_key)
    bytes ← from_reply bytes_reply
    error ← create_owned_secret cr (
        certs_secret api crypto cr resource_name (pem_encode "CERTIFICATE" bytes)
          (key_pem api crypto key))
    elim error [ none ↦ pure tt | some e ↦ raise e ]

  -- `ca` and `caPrivKey` are never nil here: `create_ca` returns both or fails.
  unfoldable pub create_service_cert :
      Horreum → Certificate → PrivateKey → String → String → ℤ → M api (Unit {0})
  unfolding new_service_cert
  create_service_cert cr ca ca_key resource_name service_name serial = do
    reply ←
        call api
          (api.get Kind.secret (record { namespace = cr.metadata.namespace; name = resource_name }))
    elim reply [
      | found _ ↦ pure tt
      | failed e ↦
          if api.is_not_found e
          then new_service_cert cr ca ca_key resource_name service_name serial
          else raise e
    ]
