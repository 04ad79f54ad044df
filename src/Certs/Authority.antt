-- ===== src/Certs/Authority.antt =====
-- The authority over several reconciliations: `obtain_ca` run again.
use horreum_operator.Common.{
  String, ◌<>◌, ◌≡◌, refl, sym, ap, ◌∙◌, Bool-cases, inl, inr, Option, none, some, [],
  if◌then◌else◌,
}
use mathlib.Core.Path.{subst}
use horreum_operator.Objects.{
  Kind, Secret, key_of, NamespacedName, tls_cert_key, tls_private_key_key,
}
use horreum_operator.Crd.{Horreum}
use horreum_operator.Cluster.{
  Api, State, M, Reply, Reply-cases, found, failed, call, pure, raise, ok, from_reply, ◌>>=◌, ◌>>◌,
}
use horreum_operator.Routes.{text_at}
use horreum_operator.Status.{update_status}
use horreum_operator.Status.Truthful.{Observation, observe, IsQuiet}
use horreum_operator.Ensure.Truthful.{KeepsKeys}
use horreum_operator.Ensure.Leaves.{
  Server, IsStore, Leaves, raise-Leaves, bind-Leaves, call-Leaves, weaken-Leaves,
}
use horreum_operator.Certs.{
  Crypto, Certificate, key_pem, certs_secret, ca_template, load_ca, new_ca, obtain_ca,
  create_owned_secret,
}
use horreum_operator.Certs.RoundTrip.{IsReadable, load_ca-readable}
use horreum_operator.Certs.Still.{then-Leaves, from_reply-found, load_ca-IsStill}

-- The server keeps the data of a secret that comes without string data.
abbrev pub KeepsData : Server → Type 0
KeepsData server =
    (secret : Secret)
    → secret.string_data ≡ []
    → (server Kind.secret secret).data_map ≡ secret.data_map

-- Whatever is signed can be parsed as a certificate.
abbrev pub IsSigning : {api : Api} → Crypto api → Type 0
IsSigning {api} crypto =
    (template parent : Certificate) (key signer : crypto.PrivateKey) (w : api.World)
    (bytes : String)
    → (crypto.create_certificate template parent key signer w).0 ≡ found bytes
    → (certificate : Certificate) × (crypto.parse_certificate bytes ≡ found certificate)

module _ (api : Api) (crypto : Crypto api) where
  abbrev authority_key : Horreum → NamespacedName
  authority_key cr = record {
    namespace = cr.metadata.namespace;
    name = cr.metadata.name <> "-ca-certs";
  }

  -- The secret of the authority is there, and loads as the key and the PEM text.
  abbrev IsAuthority : Horreum → Observation api → crypto.PrivateKey → String → Type 0
  IsAuthority cr o key pem =
      (secret : Secret) × (o Kind.secret (authority_key cr) ≡ found secret)
      × ((ca : Certificate) × ((s : State api)
            → load_ca api crypto secret s ≡ (ok (ca, key, pem), s)))

  -- A secret that could be created is there with its data.
  create_owned_secret-Leaves :
      (server : Server) (cr : Horreum) (secret : Secret)
      → IsStore api server
      → KeepsKeys api
      → KeepsData server
      → secret.string_data ≡ []
      → Leaves api (create_owned_secret api crypto cr secret) (λ _ error o'.
        error ≡ none
        → (made : Secret) × (o' Kind.secret (key_of secret.metadata) ≡ found made)
          × (made.data_map ≡ secret.data_map))
  unfolding create_owned_secret
  create_owned_secret-Leaves server cr secret store keys keeps plain =
      elim (Reply-cases (api.set_controller_reference cr secret.metadata)) [
        | inr (e, h) ↦ rw (create_owned_secret, h) (raise-Leaves api e)
        | inl (m, h) ↦
            let owned : Secret = record secret { metadata = m } in
            rw (create_owned_secret, h)
              (call-Leaves api (api.create Kind.secret owned) (λ w made. (
                server Kind.secret owned,
                rw (sym (keys cr secret.metadata m h)) (store.created Kind.secret owned w made),
                keeps owned plain,
              )))
      ]

  module _ (server : Server) (cr : Horreum) (store : IsStore api server) (keys : KeepsKeys api)
      (keeps : KeepsData server) (readable : IsReadable crypto) (signing : IsSigning crypto) where
    abbrev Made : Certificate × crypto.PrivateKey × String → Observation api → Type 0
    Made (ca, key, pem) o = IsAuthority cr o key pem

    -- The secret that is made of a key and of a signed certificate.
    abbrev secret_of : crypto.PrivateKey → String → Secret
    secret_of key bytes =
        certs_secret api crypto cr (cr.metadata.name <> "-ca-certs")
          (crypto.pem_encode "CERTIFICATE" bytes) (key_pem api crypto key)

    secret_of-IsAuthority :
        (key : crypto.PrivateKey) (bytes : String) (certificate : Certificate) (made : Secret)
        (o : Observation api)
        → crypto.parse_certificate bytes ≡ found certificate
        → o Kind.secret (authority_key cr) ≡ found made
        → made.data_map ≡ (secret_of key bytes).data_map
        → IsAuthority cr o key (crypto.pem_encode "CERTIFICATE" bytes)
    secret_of-IsAuthority key bytes certificate made o parses there same =
        let cert_text : text_at tls_cert_key made.data_map ≡ crypto.pem_encode "CERTIFICATE" bytes =
          ap (λ m. text_at tls_cert_key m) same in
        let key_text : text_at tls_private_key_key made.data_map ≡ key_pem api crypto key =
          ap (λ m. text_at tls_private_key_key m) same in
        (
          made,
          there,
          (
            certificate,
            λ s.
                load_ca-readable api crypto made bytes (crypto.marshal_private_key key) certificate
                  key s (ap crypto.pem_decode cert_text ∙ readable.pem_readable "CERTIFICATE" bytes)
                  parses
                  (ap crypto.pem_decode key_text
                    ∙ readable.pem_readable "RSA PRIVATE KEY" (crypto.marshal_private_key key))
                  (readable.key_readable key)
                ∙ ap (λ text. (ok (certificate, key, text), s)) cert_text,
          ),
        )

    -- The call that creates the secret, and what follows it.
    abbrev keep_authority :
        crypto.PrivateKey → Certificate → String → M api (Certificate × crypto.PrivateKey × String)
    keep_authority key ca bytes = do
      error ← create_owned_secret api crypto cr (secret_of key bytes)
      elim error [
        | none ↦ pure (ca, key, crypto.pem_encode "CERTIFICATE" bytes)
        | some e ↦ update_status api cr "Error" "Cannot create CA private key secret" >> raise e
      ]

    sign :
        (key : crypto.PrivateKey) (ca : Certificate) (bytes : String)
        → (certificate : Certificate) × (crypto.parse_certificate bytes ≡ found certificate)
        → Leaves api (keep_authority key ca bytes) (λ _ made o. Made made o)
    sign key ca bytes (certificate, parses) =
        bind-Leaves api _ _ _
          (create_owned_secret-Leaves server cr (secret_of key bytes) store keys keeps refl)
          (λ error. after error)
      where
        after :
            (error : Option api.Error)
            → Leaves api
                (elim error [
                  | none ↦ pure (ca, key, crypto.pem_encode "CERTIFICATE" bytes)
                  | some e ↦
                      update_status api cr "Error" "Cannot create CA private key secret" >> raise e
                ])
                (λ o made o''.
                  (o0 : Observation api)
                  → (error ≡ none
                      → (found_secret : Secret) × (o Kind.secret (authority_key cr)
                          ≡ found found_secret)
                        × (found_secret.data_map ≡ (secret_of key bytes).data_map))
                  → Made made o'')
        after none = record {
          leaves = λ s a h o0 put.
              let same : (ca, key, crypto.pem_encode "CERTIFICATE" bytes) ≡ a = cc in
              let (made, there, texts) = put refl in
              subst (λ t. Made t (observe api s.world)) same
                (secret_of-IsAuthority key bytes certificate made (observe api s.world) parses there
                  texts);
        }
        after (some e) =
            bind-Leaves api (λ _ _ _. Unit {0}) _ _ (record { leaves = λ s a h. tt })
              (λ _. raise-Leaves api e)

    -- What follows the key and the template.
    signed-Leaves :
        (key : crypto.PrivateKey) (ca : Certificate)
        → Leaves api
            (do
              bytes_reply ← call api (crypto.create_certificate ca ca key key)
              bytes ← from_reply bytes_reply
              keep_authority key ca bytes)
            (λ _ made o. Made made o)
    signed-Leaves key ca =
        bind-Leaves api
          (λ _ reply _.
            (bytes : String)
            → reply ≡ found bytes
            → (certificate : Certificate) × (crypto.parse_certificate bytes ≡ found certificate))
          (call api (crypto.create_certificate ca ca key key)) _
          (call-Leaves api (crypto.create_certificate ca ca key key)
            (λ w bytes signed. signing ca ca key key w bytes signed))
          (λ reply.
            bind-Leaves api (λ _ bytes _. reply ≡ found bytes) (from_reply reply)
              (keep_authority key ca)
              (record { leaves = λ s bytes e. from_reply-found api reply s bytes e })
              (λ bytes. record {
                leaves = λ s a e o1 answered o0 parses.
                    (sign key ca bytes (parses bytes answered)).leaves s a e;
              }))

    new_ca-Leaves : Leaves api (new_ca api crypto cr) (λ _ made o. Made made o)
    unfolding new_ca
    new_ca-Leaves = then-Leaves api Made (call api (crypto.generate_key 4096)) _ (λ key_reply.
        then-Leaves api Made (from_reply key_reply) _ (λ key.
          then-Leaves api Made (call api api.now) _ (λ start.
            then-Leaves api Made (call api api.now) _
              (λ now. signed-Leaves key (ca_template api crypto start now)))))

    load_ca-Leaves :
        (secret : Secret)
        → Leaves api (load_ca api crypto secret) (λ o made o'.
          (o0 : Observation api)
          → (o0 Kind.secret (authority_key cr) ≡ found secret) × (o ≡ o0)
          → Made made o')
    load_ca-Leaves secret = record {
      leaves = λ s made e o0 (there, same).
          let still = load_ca-IsStill api crypto secret in
          let ends : still.outcome ≡ ok made = sym (ap (λ p. p.0) (still.still s)) ∙ e in
          (
            secret,
            ap (λ p. observe api p.1.world Kind.secret (authority_key cr)) (still.still s)
                ∙ ap (λ (o : Observation api). o Kind.secret (authority_key cr)) same
                ∙ there,
            (made.0, λ s'. still.still s' ∙ ap (λ o. (o, s')) ends),
          );
    }

    obtain_ca-Leaves : IsQuiet api → Leaves api (obtain_ca api crypto cr) (λ _ made o. Made made o)
    unfolding obtain_ca
    obtain_ca-Leaves quiet =
        bind-Leaves api (λ o reply o'. (o Kind.secret (authority_key cr) ≡ reply) × (o' ≡ o))
          (call api (api.get Kind.secret (authority_key cr))) _
          (call-Leaves api (api.get Kind.secret (authority_key cr))
            (λ w. (refl, quiet.get_quiet Kind.secret (authority_key cr) w)))
          (λ reply. answered reply)
      where
        answered :
            (reply : Reply api.Error Secret)
            → Leaves api
                (elim reply [
                  | failed e ↦ if api.is_not_found e then new_ca api crypto cr else raise e
                  | found secret ↦ load_ca api crypto secret
                ])
                (λ o made o'.
                  (o0 : Observation api)
                  → (o0 Kind.secret (authority_key cr) ≡ reply) × (o ≡ o0)
                  → Made made o')
        answered (found secret) = load_ca-Leaves secret
        answered (failed e) = elim (Bool-cases (api.is_not_found e)) [
          | inl missing ↦ rw missing (weaken-Leaves api (λ o made o' r o0 _. r) new_ca-Leaves)
          | inr broken ↦ rw broken (raise-Leaves api e)
        ]

  obtain_ca-of-IsAuthority :
      (cr : Horreum) (key : crypto.PrivateKey) (pem : String) (s : State api)
      → IsAuthority cr (observe api s.world) key pem
      → (ca : Certificate) × (obtain_ca api crypto cr s ≡ (
        ok (ca, key, pem),
        record s { world = (api.get Kind.secret (authority_key cr) s.world).1 },
      ))
  unfolding obtain_ca
  obtain_ca-of-IsAuthority cr key pem s (secret, there, (ca, loads)) = (
    ca,
    rw (◌>>=◌, there)
        (loads (record s { world = (api.get Kind.secret (authority_key cr) s.world).1 })),
  )

-- If `createCA` has obtained an authority, from its secret or by making one, then a later
-- reconciliation that finds this secret as it was left obtains the same private key and the same PEM
-- text, keeps the status and changes no object. PEM blocks, private keys and signed certificates are
-- taken to be readable, the secrets of the cluster to be put at once and to keep their data.
pub obtain_ca-again :
    (api : Api) (crypto : Crypto api) (server : Server) (cr : Horreum)
    → IsQuiet api
    → IsStore api server
    → KeepsKeys api
    → KeepsData server
    → IsReadable crypto
    → IsSigning crypto
    → (s later : State api) (ca : Certificate) (key : crypto.PrivateKey) (pem : String)
    → (obtain_ca api crypto cr s).0 ≡ ok (ca, key, pem)
    → let secret_key : NamespacedName = record {
      namespace = cr.metadata.namespace;
      name = cr.metadata.name <> "-ca-certs";
    } in
      observe api later.world Kind.secret secret_key
        ≡ observe api (obtain_ca api crypto cr s).1.world Kind.secret secret_key
      → (again : Certificate) × ((obtain_ca api crypto cr later).0 ≡ ok (again, key, pem))
        × ((obtain_ca api crypto cr later).1.status ≡ later.status)
        × (observe api (obtain_ca api crypto cr later).1.world ≡ observe api later.world)
obtain_ca-again api crypto server cr quiet store keys keeps readable signing s later ca key pem e
      same =
    let (secret, there, loads) =
      (obtain_ca-Leaves api crypto server cr store keys keeps readable signing quiet).leaves s
        (ca, key, pem) e in
    let (again, whole) =
      obtain_ca-of-IsAuthority api crypto cr key pem later (secret, same ∙ there, loads) in
    (
      again,
      ap (λ p. p.0) whole,
      ap (λ p. p.1.status) whole,
      ap (λ p. observe api p.1.world) whole
          ∙ quiet.get_quiet Kind.secret
              (record { namespace = cr.metadata.namespace; name = cr.metadata.name <> "-ca-certs" })
              later.world,
    )
