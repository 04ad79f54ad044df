-- ===== src/Scope/Authority.antt =====
-- The certificate authority and the certificates of the services.
use horreum_operator.Common.{String, ◌<>◌, ◌≡◌, refl, ap, ◌∙◌, Option, none, some, if◌then◌else◌}
use horreum_operator.Common.Int.{ℤ}
use horreum_operator.Objects.{Kind, Secret, ConfigMap, ObjectMeta, NamespacedName}
use horreum_operator.Crd.{Horreum}
use horreum_operator.Cluster.{
  Api, M, Reply, found, failed, call, pure, raise, from_reply, ◌>>=◌, ◌>>◌,
}
use horreum_operator.Status.{update_status}
use horreum_operator.Ensure.Truthful.{KeepsKeys}
use horreum_operator.Certs.{
  Crypto, Certificate, ca_template, service_template, key_pem, certs_secret, create_owned_secret,
  new_ca, decode_or, load_ca, ca_config_map, create_ca_config_map, ensure_ca_config_map, obtain_ca,
  create_ca, new_service_cert, create_service_cert,
}
use horreum_operator.Scope.{told, keyed, signed}
use horreum_operator.Scope.Rules.{
  Confined, pure-Confined, raise-IsConfined, weaken-IsConfined, if-IsConfined, then-IsConfined,
  call-IsConfined, report_error-Confined,
}
use horreum_operator.Scope.Ensure.{IsLocal, create-Confined, get-IsConfined}

module _ (api : Api) (crypto : Crypto api) (cr : Horreum) where
  from_reply-Confined :
      {A : Type 0} (reply : Reply api.Error A) → Confined api crypto cr (from_reply reply)
  from_reply-Confined (found a) = pure-Confined api crypto cr a
  from_reply-Confined (failed e) = raise-IsConfined api crypto cr e

  decode_or-Confined :
      (text what : String) → Confined api crypto cr (decode_or api crypto text what)
  decode_or-Confined text what = from (crypto.pem_decode text)
    where
      from :
          (o : Option String)
          → Confined api crypto cr {A = String}
              (elim o [ some bytes ↦ pure bytes | none ↦ raise (api.new_error what) ])
      from (some bytes) = pure-Confined api crypto cr bytes
      from none = raise-IsConfined api crypto cr _

  now-Confined : Confined api crypto cr (call api api.now)
  now-Confined =
      weaken-IsConfined api crypto cr (λ _ _. tt)
        (call-IsConfined api crypto cr api.now (λ w. told w))

  get-Confined :
      (k : Kind) (key : NamespacedName) → Confined api crypto cr (call api (api.get k key))
  get-Confined k key =
      weaken-IsConfined api crypto cr (λ _ _. tt) (get-IsConfined api crypto cr k key)

  -- A call for a key, and one for a certificate, with what follows when they succeed.
  key-Confined :
      {B : Type 0} (f : crypto.PrivateKey → M api B)
      → ((key : crypto.PrivateKey) → Confined api crypto cr (f key))
      → Confined api crypto cr
          (call api (crypto.generate_key 4096) >>= λ reply. from_reply reply >>= f)
  key-Confined f h =
      then-IsConfined api crypto cr _ _
        (weaken-IsConfined api crypto cr (λ _ _. tt)
          (call-IsConfined api crypto cr (crypto.generate_key 4096) (λ w. keyed w 4096)))
        (λ reply. then-IsConfined api crypto cr _ f (from_reply-Confined reply) h)

  certificate-Confined :
      {B : Type 0} (template parent : Certificate) (key signer : crypto.PrivateKey)
      (f : String → M api B)
      → ((bytes : String) → Confined api crypto cr (f bytes))
      → Confined api crypto cr (
          call api (crypto.create_certificate template parent key signer) >>= λ reply.
          from_reply reply >>= f)
  certificate-Confined template parent key signer f h =
      then-IsConfined api crypto cr _ _
        (weaken-IsConfined api crypto cr (λ _ _. tt)
          (call-IsConfined api crypto cr (crypto.create_certificate template parent key signer)
            (λ w. signed w template parent key signer)))
        (λ reply. then-IsConfined api crypto cr _ f (from_reply-Confined reply) h)

  load_ca-Confined : (secret : Secret) → Confined api crypto cr (load_ca api crypto secret)
  unfolding load_ca
  load_ca-Confined secret = then-IsConfined api crypto cr _ _ (decode_or-Confined _ _) (λ bytes.
      then-IsConfined api crypto cr _ _ (from_reply-Confined _) (λ ca.
        then-IsConfined api crypto cr _ _ (decode_or-Confined _ _) (λ key_bytes.
          then-IsConfined api crypto cr _ _ (from_reply-Confined _)
            (λ key. pure-Confined api crypto cr _))))

  module _ (keeps : KeepsKeys api) where
    local_meta :
        (m m' : ObjectMeta)
        → api.set_controller_reference cr m ≡ found m'
        → m.namespace ≡ cr.metadata.namespace
        → m'.namespace ≡ cr.metadata.namespace
    local_meta m m' e local = ap (λ (x : NamespacedName). x.namespace) (keeps cr m m' e) ∙ local

    create_owned_secret-Confined :
        (secret : Secret)
        → IsLocal api crypto cr Kind.secret secret
        → Confined api crypto cr (create_owned_secret api crypto cr secret)
    unfolding create_owned_secret
    create_owned_secret-Confined secret local =
        owned (api.set_controller_reference cr secret.metadata) refl
      where
        owned :
            (reply : Reply api.Error ObjectMeta)
            → api.set_controller_reference cr secret.metadata ≡ reply
            → Confined api crypto cr (elim reply [
              | failed e ↦ raise e
              | found m ↦ call api (api.create Kind.secret (record secret { metadata = m }))
            ])
        owned (failed e) _ = raise-IsConfined api crypto cr e
        owned (found m) e =
            create-Confined api crypto cr Kind.secret (record secret { metadata = m })
              (local_meta secret.metadata m e local)

    -- The end of a call of `Create`.
    ending-Confined :
        (error : Option api.Error)
        → Confined api crypto cr {A = Unit {0}} (elim error [ none ↦ pure tt | some e ↦ raise e ])
    ending-Confined none = pure-Confined api crypto cr tt
    ending-Confined (some e) = raise-IsConfined api crypto cr e

    new_ca-Confined : Confined api crypto cr (new_ca api crypto cr)
    unfolding new_ca
    new_ca-Confined = key-Confined _ λ key. then-IsConfined api crypto cr _ _ now-Confined (λ start.
        then-IsConfined api crypto cr _ _ now-Confined (λ now.
          certificate-Confined (ca_template api crypto start now) (ca_template api crypto start now)
            key key _
            (λ bytes.
              then-IsConfined api crypto cr _ _
                (create_owned_secret-Confined
                  (certs_secret api crypto cr (cr.metadata.name <> "-ca-certs")
                    (crypto.pem_encode "CERTIFICATE" bytes) (key_pem api crypto key))
                  refl)
                (λ error.
                  ended
                    (ca_template api crypto start now, key, crypto.pem_encode "CERTIFICATE" bytes)
                    error))))
      where
        ended :
            (result : Certificate × crypto.PrivateKey × String) (error : Option api.Error)
            → Confined api crypto cr (elim error [
              | none ↦ pure result
              | some e ↦
                  update_status api cr "Error" "Cannot create CA private key secret" >> raise e
            ])
        ended result none = pure-Confined api crypto cr result
        ended result (some e) = report_error-Confined api crypto cr _ e

    create_ca_config_map-Confined :
        (ca_pem : String) → Confined api crypto cr (create_ca_config_map api crypto cr ca_pem)
    unfolding create_ca_config_map ca_config_map
    create_ca_config_map-Confined ca_pem = owned (api.set_controller_reference cr _) refl
      where
        owned :
            (reply : Reply api.Error ObjectMeta)
            → api.set_controller_reference cr (ca_config_map api crypto cr ca_pem).metadata ≡ reply
            → Confined api crypto cr (
                from_reply reply >>= λ m.
                call api (
                  api.create Kind.config_map
                    (record (ca_config_map api crypto cr ca_pem) { metadata = m }))
                >>= λ error. elim error [ none ↦ pure tt | some e ↦ raise e ])
        owned (failed e) _ = raise-IsConfined api crypto cr e
        owned (found m) e =
            then-IsConfined api crypto cr _ _
              (create-Confined api crypto cr Kind.config_map _
                (local_meta (ca_config_map api crypto cr ca_pem).metadata m e refl))
              (λ error. ending-Confined error)

    ensure_ca_config_map-Confined :
        (ca_pem : String) → Confined api crypto cr (ensure_ca_config_map api crypto cr ca_pem)
    unfolding ensure_ca_config_map
    ensure_ca_config_map-Confined ca_pem =
        then-IsConfined api crypto cr _ _ (get-Confined Kind.config_map _) λ reply. from reply
      where
        from :
            (reply : Reply api.Error ConfigMap)
            → Confined api crypto cr (elim reply [
              | failed e ↦
                  if api.is_not_found e then create_ca_config_map api crypto cr ca_pem else raise e
              | found _ ↦ pure tt
            ])
        from (failed e) =
            if-IsConfined api crypto cr (api.is_not_found e)
              (λ _. create_ca_config_map-Confined ca_pem) (λ _. raise-IsConfined api crypto cr e)
        from (found _) = pure-Confined api crypto cr tt

    obtain_ca-Confined : Confined api crypto cr (obtain_ca api crypto cr)
    unfolding obtain_ca
    obtain_ca-Confined =
        then-IsConfined api crypto cr _ _ (get-Confined Kind.secret _) λ reply. from reply
      where
        from :
            (reply : Reply api.Error Secret)
            → Confined api crypto cr (elim reply [
              | failed e ↦ if api.is_not_found e then new_ca api crypto cr else raise e
              | found secret ↦ load_ca api crypto secret
            ])
        from (failed e) =
            if-IsConfined api crypto cr (api.is_not_found e) (λ _. new_ca-Confined)
              (λ _. raise-IsConfined api crypto cr e)
        from (found secret) = load_ca-Confined secret

    pub create_ca-Confined : Confined api crypto cr (create_ca api crypto cr)
    unfolding create_ca
    create_ca-Confined = then-IsConfined api crypto cr _ _ obtain_ca-Confined (λ (ca, key, ca_pem).
        then-IsConfined api crypto cr _ _ (ensure_ca_config_map-Confined ca_pem)
          (λ _. pure-Confined api crypto cr (ca, key)))

    new_service_cert-Confined :
        (ca : Certificate) (ca_key : crypto.PrivateKey) (resource service : String) (serial : ℤ)
        → Confined api crypto cr (new_service_cert api crypto cr ca ca_key resource service serial)
    unfolding new_service_cert
    new_service_cert-Confined ca ca_key resource service serial =
        then-IsConfined api crypto cr _ _ now-Confined (λ start.
          then-IsConfined api crypto cr _ _ now-Confined (λ now. key-Confined _ λ key.
            certificate-Confined (service_template api crypto cr service serial start now) ca key
              ca_key _
              (λ bytes.
                then-IsConfined api crypto cr _ _
                  (create_owned_secret-Confined
                    (certs_secret api crypto cr resource (crypto.pem_encode "CERTIFICATE" bytes)
                      (key_pem api crypto key))
                    refl)
                  (λ error. ending-Confined error))))

    pub create_service_cert-Confined :
        (ca : Certificate) (ca_key : crypto.PrivateKey) (resource service : String) (serial : ℤ)
        → Confined api crypto cr
            (create_service_cert api crypto cr ca ca_key resource service serial)
    unfolding create_service_cert
    create_service_cert-Confined ca ca_key resource service serial =
        then-IsConfined api crypto cr _ _ (get-Confined Kind.secret _) λ reply. from reply
      where
        from :
            (reply : Reply api.Error Secret)
            → Confined api crypto cr (elim reply [
              | found _ ↦ pure tt
              | failed e ↦
                  if api.is_not_found e
                  then new_service_cert api crypto cr ca ca_key resource service serial
                  else raise e
            ])
        from (found _) = pure-Confined api crypto cr tt
        from (failed e) =
            if-IsConfined api crypto cr (api.is_not_found e)
              (λ _. new_service_cert-Confined ca ca_key resource service serial)
              (λ _. raise-IsConfined api crypto cr e)
