-- ===== src/Parts/Wiring/References.antt =====
-- The secrets that the pods refer to.
use horreum_operator.Common.{
  String, ◌≡◌, ◌⊎◌, true, none, some, Option, List, [], ◌∷◌, ◌++◌, All, contains, string_eq, arith,
}
use horreum_operator.Objects.{SecretKeySelector, EnvVar, Container, Pod}
use horreum_operator.Crd.{Horreum, HorreumReconciler}
use horreum_operator.Secrets.{user_keys}
use horreum_operator.Defaults.{
  db_admin_secret, app_user_secret, keycloak_db_secret, keycloak_admin_secret, horreum_admin_secret,
}
use horreum_operator.Parts.Service.{secret_env}
use horreum_operator.Parts.Postgres.{postgres_pod}
use horreum_operator.Parts.Keycloak.{keycloak_pod_at}
use horreum_operator.Parts.App.{app_pod}

-- The secrets of a custom resource, each with its keys.
abbrev pub managed_secrets : Horreum → List (String × List String)
managed_secrets cr =
    (db_admin_secret cr, user_keys)
    ∷ (app_user_secret cr, user_keys ++ ("dbsecret" ∷ []))
    ∷ (keycloak_admin_secret cr, user_keys)
    ∷ (keycloak_db_secret cr, user_keys)
    ∷ (horreum_admin_secret cr, user_keys)
    ∷ []

-- One of the secrets has the name and the key of the reference.
abbrev pub Provides : List (String × List String) → SecretKeySelector → Type 0
Provides [] ref = ⊥
Provides ((name, keys) ∷ rest) ref =
    ((ref.name ≡ name) × (contains ref.key keys ≡ true)) ⊎ Provides rest ref

abbrev pub ProvidedBy : List (String × List String) → Option SecretKeySelector → Type 0
ProvidedBy secrets none = Unit
ProvidedBy secrets (some ref) = Provides secrets ref

abbrev pub EnvProvided : List (String × List String) → EnvVar → Type 0
EnvProvided secrets env = ProvidedBy secrets env.value_from

-- Every variable of a container of the pod that refers to a secret is provided.
abbrev pub ReferencesProvided : List (String × List String) → Pod → Type 0
ReferencesProvided secrets pod =
    All (λ (c : Container). All (EnvProvided secrets) c.env)
      (pod.spec.init_containers ++ pod.spec.containers)

postgres_pod-ReferencesProvided :
    (cr : Horreum) (r : HorreumReconciler)
    → ReferencesProvided (managed_secrets cr) (postgres_pod cr r)
unfolding postgres_pod secret_env
postgres_pod-ReferencesProvided cr r = ground arith

keycloak_pod_at-ReferencesProvided :
    (cr : Horreum) (public_host : String)
    → ReferencesProvided (managed_secrets cr) (keycloak_pod_at cr public_host)
unfolding keycloak_pod_at secret_env
keycloak_pod_at-ReferencesProvided cr public_host = ground arith

app_pod-ReferencesProvided :
    (cr : Horreum) (keycloak_url app_url : String)
    → ReferencesProvided (managed_secrets cr) (app_pod cr keycloak_url app_url)
unfolding app_pod secret_env
app_pod-ReferencesProvided cr keycloak_url app_url = ground arith

-- Every variable of the three pods that is read from a secret, in init containers too, names one of
-- the five managed secrets and a key that is managed in it.
pub pods-ReferencesProvided :
    (cr : Horreum) (r : HorreumReconciler) (public_host keycloak_url app_url : String)
    → ReferencesProvided (managed_secrets cr) (postgres_pod cr r)
      × ReferencesProvided (managed_secrets cr) (keycloak_pod_at cr public_host)
      × ReferencesProvided (managed_secrets cr) (app_pod cr keycloak_url app_url)
pods-ReferencesProvided cr r public_host keycloak_url app_url = (
  postgres_pod-ReferencesProvided cr r,
  keycloak_pod_at-ReferencesProvided cr public_host,
  app_pod-ReferencesProvided cr keycloak_url app_url,
)
