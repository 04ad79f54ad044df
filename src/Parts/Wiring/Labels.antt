-- ===== src/Parts/Wiring/Labels.antt =====
-- Services and the pods behind them.
use horreum_operator.Common.{String, ◌≡◌, refl, some, All, lookup, string_eq}
use horreum_operator.Objects.{Pod, Service}
use horreum_operator.Crd.{Horreum, HorreumReconciler}
use horreum_operator.Parts.Postgres.{postgres_pod, postgres_service}
use horreum_operator.Parts.Keycloak.{keycloak_pod_at, keycloak_service}
use horreum_operator.Parts.App.{app_pod, app_service}

-- Every entry of the selector is a label of the pod, and both lie in one namespace.
abbrev pub Selects : Service → Pod → Type 0
Selects service pod =
    All (λ (key, value). lookup key pod.metadata.labels ≡ some value) service.spec.selector
    × (service.metadata.namespace ≡ pod.metadata.namespace)

-- Each of the three services selects the pod that it stands for, for every custom resource and every
-- URL: each entry of its selector is a label of the pod, in the same namespace.
pub services-Selects :
    (cr : Horreum) (r : HorreumReconciler) (public_host keycloak_url app_url : String)
    → Selects (postgres_service cr) (postgres_pod cr r)
      × Selects (keycloak_service cr r) (keycloak_pod_at cr public_host)
      × Selects (app_service cr r) (app_pod cr keycloak_url app_url)
unfolding postgres_service postgres_pod keycloak_service keycloak_pod_at app_service app_pod
services-Selects cr r public_host keycloak_url app_url =
    (((refl, (refl, tt)), refl), ((refl, (refl, tt)), refl), ((refl, (refl, tt)), refl))
