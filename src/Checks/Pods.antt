-- ===== src/Checks/Pods.antt =====
-- What `checkPod` decides.
use horreum_operator.Common.{
  String, ◌≡◌, refl, ◌↔◌, ◌⊎◌, Bool, true, false, none, some, List, [], ◌∷◌, All, arith, string_eq,
  inl, inr, Option-cases, eq_iff,
}
use horreum_operator.Objects.{
  ContainerStatus, Condition, Pod, pod_object, pod_ready, condition_true,
}
use horreum_operator.Checks.Check.{find_stuck, is_ready, check_pod}

-- The image cannot be pulled, or the container has terminated.
abbrev pub IsStuck : ContainerStatus → Type 0
IsStuck cs =
    (cs.waiting ≡ some "ImagePullBackOff")
    ⊎ (cs.waiting ≡ some "ErrImagePull")
    ⊎ ((cs.waiting ≡ none) × (cs.terminated ≡ true))

-- One of the conditions is `Ready` with the status `True`.
abbrev pub SomeReady : List Condition → Type 0
SomeReady [] = ⊥
SomeReady (c ∷ rest) = ((c.type ≡ pod_ready) × (c.status ≡ condition_true)) ⊎ SomeReady rest

find_stuck_iff :
    (statuses : List ContainerStatus)
    → (find_stuck statuses ≡ none) ↔ All (λ cs. ¬ IsStuck cs) statuses
unfolding find_stuck
find_stuck_iff [] = (λ _. tt, λ _. refl)
find_stuck_iff (cs ∷ rest) = elim (Option-cases cs.waiting) [
  | inl e ↦ ground (arith, find_stuck_iff rest)
  | inr (w, e) ↦
      ground (arith, find_stuck_iff rest, eq_iff w "ImagePullBackOff", eq_iff w "ErrImagePull")
]

is_ready_iff : (conditions : List Condition) → (is_ready conditions ≡ true) ↔ SomeReady conditions
unfolding is_ready
is_ready_iff [] = ground arith
is_ready_iff (c ∷ rest) =
    ground (arith, is_ready_iff rest, eq_iff c.type pod_ready, eq_iff c.status condition_true)

find_stuck-is_bad :
    (statuses : List ContainerStatus) (v : Bool × String × String)
    → find_stuck statuses ≡ some v
    → v.0 ≡ false
unfolding find_stuck
find_stuck-is_bad [] v e = ground arith
find_stuck-is_bad (cs ∷ rest) v e = ground (arith, find_stuck-is_bad rest v)

-- The check of a pod passes exactly when no container is stuck and the pod has a condition `Ready`
-- with the status `True`.
pub check_pod_iff :
    (p : Pod)
    → ((check_pod (pod_object p)).0 ≡ true)
      ↔ (All (λ cs. ¬ IsStuck cs) p.status.container_statuses × SomeReady p.status.conditions)
unfolding check_pod
check_pod_iff p = elim (Option-cases (find_stuck p.status.container_statuses)) [
  | inl e ↦
      ground (arith, find_stuck_iff p.status.container_statuses, is_ready_iff p.status.conditions)
  | inr (v, e) ↦ ground (
    arith,
    find_stuck_iff p.status.container_statuses,
    find_stuck-is_bad p.status.container_statuses v,
  )
]
