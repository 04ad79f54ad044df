-- ===== src/Checks/Compare.antt =====
-- `nocompare`, `comparePods`, `compareService`, `compareRoute` and `compareConfigMap`.
use horreum_operator.Common.{
  String, Bool, true, false, ◌==◌, ◌!=◌, ◌&&◌, not, Option, none, some, List, [], ◌∷◌, Dict, length,
  lookup, if◌then◌else◌, string_eq,
}
use horreum_operator.Common.Int.{nat_beq, int_eq}
use horreum_operator.Objects.{
  PodSpec, ServicePort, Service, TlsConfig, Route, pod_object, service_object, config_map_object,
  route_object,
}
use horreum_operator.Ensure.{CompareFunc}

unfoldable pub nocompare : CompareFunc
nocompare _ _ = true

-- `reflect.DeepEqual` on two pointers to a TLS configuration
unfoldable pub deep_equal : Option TlsConfig → Option TlsConfig → Bool
deep_equal none none = true
deep_equal none (some _) = false
deep_equal (some _) none = false
deep_equal (some a) (some b) =
    a.termination == b.termination
    && a.insecure_edge_termination_policy == b.insecure_edge_termination_policy
    && a.certificate == b.certificate
    && a.key == b.key
    && a.ca_certificate == b.ca_certificate
    && a.destination_ca_certificate == b.destination_ca_certificate

unfoldable pub compare_pods : (PodSpec → PodSpec → Bool) → CompareFunc
compare_pods deep_derivative (pod_object p1) (pod_object p2) = deep_derivative p1.spec p2.spec
compare_pods deep_derivative _ _ = false

-- The loop over the ports of the first service. The lengths agree where it is run.
unfoldable pub same_ports : List ServicePort → List ServicePort → Bool
same_ports [] _ = true
same_ports (p1 ∷ ports1) (p2 ∷ ports2) =
    let rest = same_ports ports1 ports2 in if p1.port != p2.port then false else rest
same_ports (p1 ∷ ports1) [] = false

unfoldable pub same_service : Service → Service → Bool
unfolding same_ports
same_service s1 s2 =
    if s1.spec.type != s2.spec.type
    then false
    else if not (nat_beq (length s1.spec.ports) (length s2.spec.ports))
    then false
    else same_ports s1.spec.ports s2.spec.ports

unfoldable pub compare_service : CompareFunc
unfolding same_service
compare_service (service_object s1) (service_object s2) = same_service s1 s2
compare_service _ _ = false

unfoldable pub same_route : Route → Route → Bool
unfolding deep_equal
same_route r1 r2 =
    if r1.spec.host == ""
    then r1.spec.subdomain == r2.spec.subdomain
    else if r1.spec.host != r2.spec.host
    then false
    else if not (deep_equal r1.spec.tls r2.spec.tls)
    then false
    else true

unfoldable pub compare_route : CompareFunc
unfolding same_route
compare_route (route_object r1) (route_object r2) = same_route r1 r2
compare_route _ _ = false

-- The loop over the entries of the first map.
unfoldable pub same_entries : Dict String String → Dict String String → Bool
same_entries [] m2 = true
same_entries ((key, val1) ∷ m1) m2 =
    let rest = same_entries m1 m2 in
    elim (lookup key m2) [ none ↦ false | some val2 ↦ if val1 != val2 then false else rest ]

unfoldable pub same_data : Dict String String → Dict String String → Bool
unfolding same_entries
same_data m1 m2 = if not (nat_beq (length m1) (length m2)) then false else same_entries m1 m2

unfoldable pub compare_config_map : CompareFunc
unfolding same_data
compare_config_map (config_map_object cm1) (config_map_object cm2) =
    same_data cm1.data_map cm2.data_map
compare_config_map _ _ = false
