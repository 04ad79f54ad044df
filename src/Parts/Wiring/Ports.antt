-- ===== src/Parts/Wiring/Ports.antt =====
-- The protocol that the application speaks, its ports and its certificates.
use horreum_operator.Common.{
  String, ◌≡◌, refl, ◌⊎◌, inl, inr, ◌==◌, Bool-cases, String-cases, string_eq, arith,
}
use horreum_operator.Objects.{service_type_node_port}
use horreum_operator.Crd.{HorreumReconciler}
use horreum_operator.Parts.Service.{service_type, is_node_port}

-- The types of route that the documentation of the custom resource names.
abbrev pub IsRouteType : String → Type 0
IsRouteType t = (t ≡ "http") ⊎ (t ≡ "edge") ⊎ (t ≡ "passthrough") ⊎ (t ≡ "reencrypt") ⊎ (t ≡ "")

-- A service is treated as one of the type NodePort exactly when the type that is built for it is
-- NodePort, defaults included.
pub is_node_port_iff :
    (r : HorreumReconciler) (t : String)
    → is_node_port r t ≡ (service_type t r == service_type_node_port)
unfolding is_node_port service_type
is_node_port_iff r t = elim (String-cases t "") [
  | inl e ↦ elim (Bool-cases r.routes_available) [ inl b ↦ rw (e, b) refl | inr b ↦ rw (e, b) refl ]
  | inr e ↦ ground arith
]
