-- ===== src/Reconcile/Disabled.antt =====
-- The database that is turned off.
use horreum_operator.Common.{◌≡◌, ◌≢◌, inl, ◌∙◌, true}
use horreum_operator.Objects.{Kind, NamespacedName, key_of}
use horreum_operator.Crd.{Horreum, HorreumReconciler}
use horreum_operator.Cluster.{Api, State, ok, ◌>>◌}
use horreum_operator.Status.Truthful.{Observation, observe, IsQuiet}
use horreum_operator.Status.Keyed.{IsKeyed, IsElsewhere}
use horreum_operator.Parts.Postgres.{postgres_pod, postgres_service}
use horreum_operator.Ensure.{ensure_deleted}
use horreum_operator.Ensure.Leaves.{
  Server, IsStore, Leaves, weaken-Leaves, bind-Leaves, IsMissing, IsGone,
}
use horreum_operator.Ensure.Gone.{ensure_deleted-Leaves}
use horreum_operator.Reconcile.Phases.{postgres_disabled, postgres}

-- The pod and the service of the database are not there, and nothing else has changed.
abbrev pub IsWithoutDatabase :
    (api : Api) → HorreumReconciler → Horreum → Observation api → Observation api → Type 0
IsWithoutDatabase api r cr o o' =
    IsMissing api o' Kind.pod (key_of (postgres_pod cr r).metadata)
    × IsMissing api o' Kind.service (key_of (postgres_service cr).metadata)
    × ((j : Kind) (other : NamespacedName)
        → IsElsewhere Kind.pod (key_of (postgres_pod cr r).metadata) j other
        → IsElsewhere Kind.service (key_of (postgres_service cr).metadata) j other
        → o' j other ≡ o j other)

pod-ne-service : ◌≢◌ {A = Kind} Kind.pod Kind.service
pod-ne-service e = cc

-- If the database is turned off and its phase ends by a value, then the pod and the service of the
-- database are not there, and every other object, its config map among them, is as it was; provided
-- that nothing else is changed meanwhile and that an object is removed at once.
pub postgres-IsWithoutDatabase :
    (api : Api) (server : Server) (r : HorreumReconciler) (cr : Horreum)
    → IsQuiet api
    → IsKeyed api
    → IsStore api server
    → postgres_disabled cr ≡ true
    → (s : State api) → (postgres api r cr s).0 ≡ ok tt
    → IsWithoutDatabase api r cr (observe api s.world) (observe api (postgres api r cr s).1.world)
unfolding postgres
postgres-IsWithoutDatabase api server r cr quiet keyed store disabled s e =
    let removed : Leaves api
        (ensure_deleted api cr Kind.pod (postgres_pod cr r)
          >> ensure_deleted api cr Kind.service (postgres_service cr))
        (λ o _ o'. IsWithoutDatabase api r cr o o') =
      bind-Leaves api (λ o _ o'. IsGone api Kind.pod (key_of (postgres_pod cr r).metadata) o o')
        (ensure_deleted api cr Kind.pod (postgres_pod cr r))
        (λ _. ensure_deleted api cr Kind.service (postgres_service cr))
        (ensure_deleted-Leaves api quiet keyed server store cr Kind.pod (postgres_pod cr r))
        (λ _.
          weaken-Leaves api
            (λ o _ o'' (service_gone, later) o0 ((x, pod_gone, missing), earlier). (
              (x, later Kind.pod _ (inl pod-ne-service) ∙ pod_gone, missing),
              service_gone,
              λ j other pod_apart service_apart.
                  later j other service_apart ∙ earlier j other pod_apart,
            ))
            (ensure_deleted-Leaves api quiet keyed server store cr Kind.service
              (postgres_service cr))) in
    rw (disabled, postgres) (removed.leaves s tt (rw (disabled, postgres) at e))
