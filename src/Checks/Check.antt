-- ===== src/Checks/Check.antt =====
-- `nocheck`, `checkSecret`, `checkPod` and `checkRoute`.
use horreum_operator.Common.{
  String, ◌<>◌, Bool, true, false, ◌==◌, ◌&&◌, ◌||◌, Option, none, some, List, [], ◌∷◌, Dict,
  lookup, if◌then◌else◌, string_eq,
}
use horreum_operator.Objects.{
  ContainerStatus, Condition, RouteIngress, pod_object, secret_object, route_object, pod_ready,
  condition_true, route_admitted,
}
use horreum_operator.Ensure.{Verdict, CheckFunc}

abbrev pub well : Verdict
well = (true, "", "")

unfoldable pub nocheck : CheckFunc
nocheck _ = well

-- The loop over the keys that must be present.
unfoldable pub find_missing : List String → Dict String String → Verdict
find_missing [] data_map = well
find_missing (key ∷ keys) data_map =
    let rest = find_missing keys data_map in
    elim (lookup key data_map) [ none ↦ (false, "Error", " missing data " <> key) | some _ ↦ rest ]

unfoldable pub check_secret : List String → CheckFunc
unfolding find_missing
check_secret keys (secret_object secret) = find_missing keys secret.data_map
check_secret keys _ = (false, "Error", " is not a secret")

-- The loop over the containers, with the verdict that ends it early.
unfoldable pub find_stuck : List ContainerStatus → Option Verdict
find_stuck [] = none
find_stuck (cs ∷ rest) =
    let later = find_stuck rest in
    elim cs.waiting [
      | some reason ↦
          if reason == "ImagePullBackOff" || reason == "ErrImagePull"
          then some (false, "Error", " cannot pull container image")
          else later
      | none ↦ if cs.terminated then some (false, "Pending", " has terminated container") else later
    ]

-- The loop over the conditions.
unfoldable pub is_ready : List Condition → Bool
is_ready [] = false
is_ready (c ∷ rest) =
    let later = is_ready rest in
    if c.type == pod_ready && c.status == condition_true then true else later

unfoldable pub check_pod : CheckFunc
unfolding find_stuck is_ready
check_pod (pod_object pod) = elim (find_stuck pod.status.container_statuses) [
  | some verdict ↦ verdict
  | none ↦ if is_ready pod.status.conditions then well else (false, "Pending", " is not ready")
]
check_pod _ = (false, "Error", " is not a pod")

-- The inner loop: the first condition of the type `Admitted` decides.
unfoldable pub find_admitted : List Condition → Option Verdict
find_admitted [] = none
find_admitted (c ∷ rest) =
    let later = find_admitted rest in
    if c.type == route_admitted
    then some (if c.status == condition_true then well else (false, "Error", " was not admitted"))
    else later

unfoldable pub find_decided : List RouteIngress → Option Verdict
unfolding find_admitted
find_decided [] = none
find_decided (ri ∷ rest) =
    let later = find_decided rest in
    elim (find_admitted ri.conditions) [ some verdict ↦ some verdict | none ↦ later ]

unfoldable pub check_route : CheckFunc
unfolding find_decided
check_route (route_object route) = elim (find_decided route.ingress) [
  | some verdict ↦ verdict
  | none ↦ (false, "Pending", " is in unknown state")
]
check_route _ = (false, "Error", " is not a route")
