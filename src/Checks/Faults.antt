-- ===== src/Checks/Faults.antt =====
-- The comparisons and the metadata of the desired object, and the statuses that the checks name.
use horreum_operator.Common.{
  String, ◌≡◌, refl, Bool, some, List, [], ◌∷◌, Dict, arith, inl, inr, Option-cases,
}
use horreum_operator.Objects.{
  Kind, PodSpec, ContainerStatus, Condition, RouteIngress, pod_object, service_object,
  secret_object, config_map_object, route_object,
}
use horreum_operator.Ensure.{Verdict}
use horreum_operator.Ensure.Truthful.{IsFault, IsFaultFinding, IgnoresMeta}
use horreum_operator.Checks.Compare.{
  nocompare, compare_pods, compare_service, compare_route, compare_config_map,
}
use horreum_operator.Checks.Check.{
  nocheck, find_missing, check_secret, find_stuck, check_pod, find_admitted, find_decided,
  check_route,
}

pub nocompare-IgnoresMeta : (k : Kind) → IgnoresMeta k nocompare
unfolding nocompare
nocompare-IgnoresMeta k object m o = refl

pub compare_pods-IgnoresMeta :
    (deep_derivative : PodSpec → PodSpec → Bool)
    → IgnoresMeta Kind.pod (compare_pods deep_derivative)
unfolding compare_pods
compare_pods-IgnoresMeta deep_derivative object m (pod_object _) = refl
compare_pods-IgnoresMeta deep_derivative object m _ = refl

pub compare_service-IgnoresMeta : IgnoresMeta Kind.service compare_service
unfolding compare_service
compare_service-IgnoresMeta object m (service_object _) = refl
compare_service-IgnoresMeta object m _ = refl

pub compare_route-IgnoresMeta : IgnoresMeta Kind.route compare_route
unfolding compare_route
compare_route-IgnoresMeta object m (route_object _) = refl
compare_route-IgnoresMeta object m _ = refl

pub compare_config_map-IgnoresMeta : IgnoresMeta Kind.config_map compare_config_map
unfolding compare_config_map
compare_config_map-IgnoresMeta object m (config_map_object _) = refl
compare_config_map-IgnoresMeta object m _ = refl

pub nocheck-IsFaultFinding : IsFaultFinding nocheck
unfolding nocheck
nocheck-IsFaultFinding o = inl refl

find_missing-IsFault :
    (keys : List String) (data_map : Dict String String) → IsFault (find_missing keys data_map)
unfolding find_missing
find_missing-IsFault [] data_map = inl refl
find_missing-IsFault (key ∷ keys) data_map = ground (arith, find_missing-IsFault keys data_map)

pub check_secret-IsFaultFinding : (keys : List String) → IsFaultFinding (check_secret keys)
unfolding check_secret
check_secret-IsFaultFinding keys (secret_object s) = find_missing-IsFault keys s.data_map
check_secret-IsFaultFinding keys _ = inr (inl refl)

find_stuck-IsFaultIn :
    (statuses : List ContainerStatus) {v : Verdict} → find_stuck statuses ≡ some v → IsFault v
unfolding find_stuck
find_stuck-IsFaultIn [] e = ground arith
find_stuck-IsFaultIn (cs ∷ rest) {v} e = ground (arith, find_stuck-IsFaultIn rest {v = v})

pub check_pod-IsFaultFinding : IsFaultFinding check_pod
unfolding check_pod
check_pod-IsFaultFinding (pod_object p) =
    elim (Option-cases (find_stuck p.status.container_statuses)) [
      | inl e ↦ ground arith
      | inr (v, e) ↦ ground (arith, find_stuck-IsFaultIn p.status.container_statuses {v = v} e)
    ]
check_pod-IsFaultFinding _ = inr (inl refl)

find_admitted-IsFaultIn :
    (conditions : List Condition) {v : Verdict} → find_admitted conditions ≡ some v → IsFault v
unfolding find_admitted
find_admitted-IsFaultIn [] e = ground arith
find_admitted-IsFaultIn (c ∷ rest) {v} e = ground (arith, find_admitted-IsFaultIn rest {v = v})

find_decided-IsFaultIn :
    (ingress : List RouteIngress) {v : Verdict} → find_decided ingress ≡ some v → IsFault v
unfolding find_decided
find_decided-IsFaultIn [] e = ground arith
find_decided-IsFaultIn (ri ∷ rest) {v} e =
    ground
      (arith, find_decided-IsFaultIn rest {v = v}, find_admitted-IsFaultIn ri.conditions {v = v})

pub check_route-IsFaultFinding : IsFaultFinding check_route
unfolding check_route
check_route-IsFaultFinding (route_object r) = elim (Option-cases (find_decided r.ingress)) [
  | inl e ↦ ground arith
  | inr (v, e) ↦ ground (arith, find_decided-IsFaultIn r.ingress {v = v} e)
]
check_route-IsFaultFinding _ = inr (inl refl)
