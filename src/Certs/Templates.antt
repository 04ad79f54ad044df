-- ===== src/Certs/Templates.antt =====
-- What controllers/certificates.go needs of the cryptographic packages, and the certificates and
-- secrets that it fills in.
use horreum_operator.Common.{
  ℕ, String, ◌<>◌, Bool, true, false, ◌!=◌, Option, List, [], ◌∷◌, if◌then◌else◌, string_eq,
}
use horreum_operator.Common.Int.{ℤ, pos}
use horreum_operator.Objects.{
  Secret, empty_meta, empty_secret, secret_type_tls, tls_cert_key, tls_private_key_key,
}
use horreum_operator.Crd.{Time, Horreum}
use horreum_operator.Cluster.{Api, Reply}

-- `pkix.Name` and the fields of `x509.Certificate` that the code sets.
pub record SubjectName : Type 0 where
  pub organization : String
  pub country : String
  pub province : String
  pub locality : String
  pub common_name : String

pub record Certificate : Type 0 where
  pub serial_number : ℤ
  pub subject : SubjectName
  pub dns_names : List String
  pub not_before : Time
  pub not_after : Time
  pub is_ca : Bool
  pub ext_key_usage : List String
  pub key_usage : List String
  pub basic_constraints_valid : Bool

-- The packages crypto/rsa, crypto/x509, encoding/pem and the arithmetic of dates.
pub record Crypto (api : Api) : Type 1 where
  pub PrivateKey : Type 0
  -- `rsa.GenerateKey(rand.Reader, bits)`
  pub generate_key : ℕ → api.World → Reply api.Error PrivateKey × api.World
  -- `x509.CreateCertificate(rand.Reader, template, parent, &key.PublicKey, signer)`
  pub create_certificate :
      Certificate
      → Certificate
      → PrivateKey
      → PrivateKey
      → api.World
      → Reply api.Error String × api.World
  pub parse_certificate : String → Reply api.Error Certificate
  pub marshal_private_key : PrivateKey → String
  pub parse_private_key : String → Reply api.Error PrivateKey
  -- `pem.Encode` of a block of a type, and the bytes of the first block for `pem.Decode`
  pub pem_encode : String → String → String
  pub pem_decode : String → Option String
  -- `t.AddDate(years, 0, 0)`
  pub add_years : Time → ℕ → Time

abbrev ca_subject : SubjectName
ca_subject = record {
  organization = "Horreum CA";
  country = "US";
  province = "";
  locality = "Raleigh";
  common_name = "ca.horreum.hyperfoil.io";
}

abbrev service_subject : String → SubjectName
service_subject service_name = record {
  organization = "Horreum";
  country = "US";
  province = "";
  locality = "Raleigh";
  common_name = service_name;
}

abbrev both_usages : List String
both_usages = "ClientAuth" ∷ "ServerAuth" ∷ []

-- The names that the certificate of a service is valid for.
unfoldable pub service_sans : Horreum → String → List String
service_sans cr service_name =
    (service_name <> "." <> cr.metadata.namespace <> ".svc")
    ∷ (service_name <> "." <> cr.metadata.namespace <> ".svc.cluster.local")
    ∷ ("*." <> service_name <> "." <> cr.metadata.namespace <> ".svc")
    ∷ ("*." <> service_name <> "." <> cr.metadata.namespace <> ".svc.cluster.local")
    ∷ (if cr.spec.node_host != "" then cr.spec.node_host ∷ [] else [])

module _ (api : Api) (crypto : Crypto api) where
  open crypto use {
    PrivateKey, generate_key, create_certificate, parse_certificate, marshal_private_key,
    parse_private_key, pem_encode, pem_decode, add_years,
  }

  abbrev pub key_pem : PrivateKey → String
  key_pem key = pem_encode "RSA PRIVATE KEY" (marshal_private_key key)

  -- A secret of the TLS type with a certificate and its key.
  abbrev pub certs_secret : Horreum → String → String → String → Secret
  certs_secret cr name cert_pem private_pem = record empty_secret {
    metadata = record empty_meta { name = name; namespace = cr.metadata.namespace };
    type = secret_type_tls;
    data_map = (tls_private_key_key, private_pem) ∷ (tls_cert_key, cert_pem) ∷ [];
  }

  unfoldable pub ca_template : Time → Time → Certificate
  ca_template start now = record {
    serial_number = pos 2019;
    subject = ca_subject;
    dns_names = [];
    not_before = start;
    not_after = add_years now 10;
    is_ca = true;
    ext_key_usage = both_usages;
    key_usage = "DigitalSignature" ∷ "CertSign" ∷ [];
    basic_constraints_valid = true;
  }

  unfoldable pub service_template : Horreum → String → ℤ → Time → Time → Certificate
  service_template cr service_name serial start now = record {
    serial_number = serial;
    subject = service_subject service_name;
    dns_names = service_sans cr service_name;
    not_before = start;
    not_after = add_years now 10;
    is_ca = false;
    ext_key_usage = both_usages;
    key_usage = "DigitalSignature" ∷ [];
    basic_constraints_valid = false;
  }
