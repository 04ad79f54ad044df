-- ===== src/Parts/Wiring/Volumes.antt =====
-- The volumes of the pods and their mounts.
use horreum_operator.Common.{
  String, ◌≡◌, refl, true, List, ◌++◌, map, All, contains, arith, string_eq,
}
use horreum_operator.Objects.{Container, Volume, VolumeMount, Pod}
use horreum_operator.Crd.{Horreum, HorreumReconciler}
use horreum_operator.Parts.Postgres.{postgres_pod}
use horreum_operator.Parts.Keycloak.{keycloak_pod_at}
use horreum_operator.Parts.App.{app_pod}

abbrev pub volume_names : Pod → List String
volume_names pod = map (λ (v : Volume). v.name) pod.spec.volumes

-- Every mount of the container names one of the volumes.
abbrev pub MountsOf : List String → Container → Type 0
MountsOf names c = All (λ (m : VolumeMount). contains m.name names ≡ true) c.volume_mounts

-- Every mount of a container of the pod, init containers included, names a volume of the pod.
abbrev pub MountsDeclared : Pod → Type 0
MountsDeclared pod =
    All (MountsOf (volume_names pod)) (pod.spec.init_containers ++ pod.spec.containers)

postgres_pod-MountsDeclared :
    (cr : Horreum) (r : HorreumReconciler) → MountsDeclared (postgres_pod cr r)
unfolding postgres_pod
postgres_pod-MountsDeclared cr r = ground arith

app_pod-MountsDeclared :
    (cr : Horreum) (keycloak_url app_url : String)
    → MountsDeclared (app_pod cr keycloak_url app_url)
unfolding app_pod
app_pod-MountsDeclared cr keycloak_url app_url = ground arith

-- In each of the three pods every mount, of init containers too, names a volume that the pod declares.
pub pods-MountsDeclared :
    (cr : Horreum) (r : HorreumReconciler) (public_host keycloak_url app_url : String)
    → MountsDeclared (postgres_pod cr r)
      × MountsDeclared (keycloak_pod_at cr public_host)
      × MountsDeclared (app_pod cr keycloak_url app_url)
unfolding keycloak_pod_at
pods-MountsDeclared cr r public_host keycloak_url app_url = (
  postgres_pod-MountsDeclared cr r,
  ((refl, tt), tt),
  app_pod-MountsDeclared cr keycloak_url app_url,
)
