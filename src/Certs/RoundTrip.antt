-- ===== src/Certs/RoundTrip.antt =====
-- The authority that is read back from its secret.
use horreum_operator.Common.{String, ◌≡◌, refl, some}
use horreum_operator.Objects.{Secret, tls_cert_key, tls_private_key_key}
use horreum_operator.Routes.{text_at}
use horreum_operator.Cluster.{Api, State, found, ok, from_reply, ◌>>=◌}
use horreum_operator.Certs.{Crypto, Certificate, decode_or, load_ca}

-- PEM blocks and private keys can be read back.
pub record IsReadable {api : Api} (crypto : Crypto api) : Type 0 where
  pub pem_readable :
      (kind bytes : String) → crypto.pem_decode (crypto.pem_encode kind bytes) ≡ some bytes
  pub key_readable :
      (key : crypto.PrivateKey)
      → crypto.parse_private_key (crypto.marshal_private_key key) ≡ found key

-- A secret whose texts can be decoded and parsed.
pub load_ca-readable :
    (api : Api) (crypto : Crypto api) (secret : Secret) (cert_bytes key_bytes : String)
    (ca : Certificate) (key : crypto.PrivateKey) (s : State api)
    → crypto.pem_decode (text_at tls_cert_key secret.data_map) ≡ some cert_bytes
    → crypto.parse_certificate cert_bytes ≡ found ca
    → crypto.pem_decode (text_at tls_private_key_key secret.data_map) ≡ some key_bytes
    → crypto.parse_private_key key_bytes ≡ found key
    → load_ca api crypto secret s ≡ (ok (ca, key, text_at tls_cert_key secret.data_map), s)
unfolding load_ca
load_ca-readable api crypto secret cert_bytes key_bytes ca key s cert cert_parsed private
      private_parsed =
    rw (◌>>=◌, cert, cert_parsed, private, private_parsed)
      (rw (decode_or, from_reply, cert, cert_parsed, private, private_parsed) refl)
