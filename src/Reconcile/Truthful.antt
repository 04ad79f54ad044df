-- ===== src/Reconcile/Truthful.antt =====
-- The phases of the reconciliation under the status `Ready`: what each of them leaves in the cluster.
pub mod Waits
use Prim.Native.Char.{Char}
use horreum_operator.Common.{
  ℕ, zero, suc, String, ◌<>◌, ◌≡◌, refl, sym, ◌∙◌, ap, Bool, true, false, Option, none, some, List,
  [], ◌∷◌, ◌++◌, All, get_elem?, length,
}
use horreum_operator.Objects.{Kind, Secret, NamespacedName, key_of}
use horreum_operator.Crd.{Horreum, HorreumReconciler}
use horreum_operator.Cluster.{Api, M, Reply, found, call, call_unit, pure, crash, ◌>>=◌, ◌>>◌}
use horreum_operator.Defaults.{
  db_admin_secret, app_user_secret, keycloak_db_secret, keycloak_admin_secret, horreum_admin_secret,
}
use horreum_operator.Secrets.{user_keys, chars, fill, generate_password, new_secret}
use horreum_operator.Parts.Wiring.References.{managed_secrets}
use horreum_operator.Status.Truthful.{
  Observation, IsQuiet, IsTruthful, pure-IsTruthful, crash-Stops, weaken-IsTruthful,
  Stops-IsTruthful, bind-IsTruthful, call-IsTruthful,
}
use horreum_operator.Ensure.Truthful.{KeepsKeys, ensure_same-IsTruthful}
use horreum_operator.Checks.{nocompare, check_secret}
use horreum_operator.Checks.Services.{HasKeys, check_secret_iff}
use horreum_operator.Checks.Faults.{nocompare-IgnoresMeta, check_secret-IsFaultFinding}
use horreum_operator.Reconcile.Phases.{keep_secret, add_db_secret, secrets}

module _ (api : Api) where
  -- The secret is there, with all the keys.
  abbrev pub IsHeld : Observation api → NamespacedName → List String → Type 0
  IsHeld o key keys = (s : Secret) × (o Kind.secret key ≡ found s) × HasKeys keys s.data_map

  -- All the secrets that the pods refer to are there, with the keys that they are read by.
  abbrev pub AreHeld : Observation api → String → List (String × List String) → Type 0
  AreHeld o namespace =
      All (λ (name, keys). IsHeld o (record { namespace = namespace; name = name }) keys)

  module _ (quiet : IsQuiet api) (keeps : KeepsKeys api) (cr : Horreum) where
    fill-IsTruthful : (n : ℕ) → IsTruthful api (fill api n) (λ _ _. Unit {0})
    unfolding fill
    fill-IsTruthful zero = weaken-IsTruthful api (λ _ _ _. tt) (pure-IsTruthful api "")
    fill-IsTruthful (suc n) =
        bind-IsTruthful api _ _
          (call-IsTruthful api (api.rand_intn (length chars)) (quiet.rand_quiet (length chars)))
          (λ i. bind-IsTruthful api _ _ (pick (get_elem? chars i)) (λ c.
            bind-IsTruthful api _ _ (fill-IsTruthful n) (λ rest.
              weaken-IsTruthful api (λ _ _ _ _ _ _. tt) (pure-IsTruthful api (String.◌∷◌ c rest)))))
      where
        pick :
            (o : Option Char)
            → IsTruthful api {A = Char}
                (elim o [ some c ↦ pure c | none ↦ crash ])
                (λ _ _. Unit {0})
        pick (some c) = weaken-IsTruthful api (λ _ _ _. tt) (pure-IsTruthful api c)
        pick none = Stops-IsTruthful api (crash-Stops api)

    generate_password-IsTruthful : IsTruthful api (generate_password api) (λ _ _. Unit {0})
    unfolding generate_password
    generate_password-IsTruthful =
        bind-IsTruthful api _ _ (call-IsTruthful api (λ w. (tt, api.seed w)) quiet.seed_quiet)
          (λ _. weaken-IsTruthful api (λ _ _ _ _. tt) (fill-IsTruthful 16))

    -- The name under which a secret is looked for.
    abbrev named : String → NamespacedName
    named name = record { namespace = cr.metadata.namespace; name = name }

    new_secret-IsTruthful :
        (name : String)
        → IsTruthful api (new_secret api cr name) (λ s _. key_of s.metadata ≡ named name)
    unfolding new_secret
    new_secret-IsTruthful name = bind-IsTruthful api _ _ generate_password-IsTruthful (λ p.
        weaken-IsTruthful api (λ s _ e _. ap (λ (x : Secret). key_of x.metadata) e)
          (pure-IsTruthful api _))

    keep_secret-IsTruthful :
        (s : Secret) (keys : List String)
        → IsTruthful api (keep_secret api cr s keys) (λ _ o. IsHeld o (key_of s.metadata) keys)
    unfolding keep_secret
    keep_secret-IsTruthful s keys =
        bind-IsTruthful api _ _
          (ensure_same-IsTruthful api cr quiet keeps Kind.secret s nocompare (check_secret keys)
            (nocompare-IgnoresMeta Kind.secret) (check_secret-IsFaultFinding keys))
          (λ _.
            weaken-IsTruthful api
              (λ _ o _ (out, there, _, well). (out, there, (check_secret_iff keys out).0 well))
              (pure-IsTruthful api tt))

    -- A secret that is made and kept, with what is said of those after it.
    kept_secret-IsTruthful :
        {F : Observation api → Type 0} (name : String) (keys : List String)
        (rest : M api (Unit {0}))
        → IsTruthful api rest (λ _ o. F o)
        → IsTruthful api
            (new_secret api cr name >>= λ s. keep_secret api cr s keys >> rest)
            (λ _ o. IsHeld o (named name) keys × F o)
    kept_secret-IsTruthful name keys rest h =
        bind-IsTruthful api _ _ (new_secret-IsTruthful name) (λ s.
          bind-IsTruthful api _ _ (keep_secret-IsTruthful s keys) (λ _.
            weaken-IsTruthful api
              (λ _ o f (out, there, has) e. ((out, ap (o Kind.secret) (sym e) ∙ there, has), f)) h))

    pub secrets-IsTruthful :
        IsTruthful api
          (secrets api cr)
          (λ _ o. AreHeld o cr.metadata.namespace (managed_secrets cr))
    unfolding secrets add_db_secret
    secrets-IsTruthful = kept_secret-IsTruthful (db_admin_secret cr) user_keys _ (
        bind-IsTruthful api _ _ (new_secret-IsTruthful (app_user_secret cr)) (λ app.
          bind-IsTruthful api _ _ generate_password-IsTruthful (λ password.
            bind-IsTruthful api _ _
              (keep_secret-IsTruthful (add_db_secret app password) (user_keys ++ ("dbsecret" ∷ [])))
              (λ _.
                weaken-IsTruthful api
                  (λ _ o later (out, there, has) _ e.
                    ((out, ap (o Kind.secret) (sym e) ∙ there, has), later))
                  (kept_secret-IsTruthful (keycloak_admin_secret cr) user_keys _ (
                    kept_secret-IsTruthful (keycloak_db_secret cr) user_keys _ (
                      bind-IsTruthful api _ _ (new_secret-IsTruthful (horreum_admin_secret cr))
                        (λ s.
                          weaken-IsTruthful api
                            (λ _ o (out, there, has) e.
                              ((out, ap (o Kind.secret) (sym e) ∙ there, has), tt))
                            (keep_secret-IsTruthful s user_keys)))))))))
