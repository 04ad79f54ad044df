-- ===== src/Checks/Services.antt =====
-- What `compareService` and `checkSecret` decide.
use horreum_operator.Common.{
  suc, ap, String, ◌≡◌, refl, ◌↔◌, ◌≢◌, true, none, List, [], ◌∷◌, Dict, All, map, lookup, length,
  arith, string_eq, eq_iff,
}
use horreum_operator.Common.Int.{ℤ, int_eq, int_beq_iff}
use horreum_operator.Objects.{ServicePort, Service, Secret, service_object, secret_object}
use horreum_operator.Checks.Compare.{same_ports, compare_service}
use horreum_operator.Checks.Check.{find_missing, check_secret}

abbrev pub port_numbers : List ServicePort → List ℤ
port_numbers = map (λ (p : ServicePort). p.port)

length-port_numbers : (ps : List ServicePort) → length (port_numbers ps) ≡ length ps
length-port_numbers [] = refl
length-port_numbers (p ∷ ps) = ap suc (length-port_numbers ps)

length-eq_of_numbers :
    (ps qs : List ServicePort) → port_numbers ps ≡ port_numbers qs → length ps ≡ length qs
length-eq_of_numbers ps qs h =
    omega (arith, ap length h, length-port_numbers ps, length-port_numbers qs)

same_ports_iff :
    (ps qs : List ServicePort)
    → length ps ≡ length qs
    → (same_ports ps qs ≡ true) ↔ (port_numbers ps ≡ port_numbers qs)
unfolding same_ports
same_ports_iff [] [] h = (λ _. refl, λ _. refl)
same_ports_iff [] (q ∷ qs) h = absurd (omega arith)
same_ports_iff (p ∷ ps) [] h = absurd (omega arith)
same_ports_iff (p ∷ ps) (q ∷ qs) h =
    ground (arith, same_ports_iff ps qs (omega arith), int_beq_iff p.port q.port)

-- Two services compare as equal exactly when their types are equal and their lists of ports have the
-- same port numbers in the same order. Nothing else of them is looked at.
pub compare_service_iff :
    (s1 s2 : Service)
    → (compare_service (service_object s1) (service_object s2) ≡ true)
      ↔ ((s1.spec.type ≡ s2.spec.type) × (port_numbers s1.spec.ports ≡ port_numbers s2.spec.ports))
unfolding compare_service
compare_service_iff s1 s2 = ground (
  arith,
  eq_iff s1.spec.type s2.spec.type,
  same_ports_iff s1.spec.ports s2.spec.ports,
  λ (e : port_numbers s1.spec.ports ≡ port_numbers s2.spec.ports).
      length-eq_of_numbers s1.spec.ports s2.spec.ports e,
)

-- Every key has a value in the map.
abbrev pub HasKeys : List String → Dict String String → Type 0
HasKeys keys data_map = All (λ key. lookup key data_map ≢ none) keys

find_missing_iff :
    (keys : List String) (data_map : Dict String String)
    → ((find_missing keys data_map).0 ≡ true) ↔ HasKeys keys data_map
unfolding find_missing
find_missing_iff [] data_map = (λ _. tt, λ _. refl)
find_missing_iff (key ∷ keys) data_map = ground (arith, find_missing_iff keys data_map)

-- The check of a secret passes exactly when the secret has every key of the list.
pub check_secret_iff :
    (keys : List String) (s : Secret)
    → ((check_secret keys (secret_object s)).0 ≡ true) ↔ HasKeys keys s.data_map
unfolding check_secret
check_secret_iff keys s = find_missing_iff keys s.data_map
