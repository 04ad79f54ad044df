-- ===== src/Checks/Admission.antt =====
-- What `checkRoute` decides.
use horreum_operator.Common.{
  String, ◌≡◌, refl, ◌↔◌, Bool, true, ◌==◌, Option, none, some, List, [], ◌∷◌, ◌++◌, arith,
  string_eq, inl, inr, Option-cases, Bool-cases, eq_iff, if◌then◌else◌,
}
use horreum_operator.Objects.{
  Condition, RouteIngress, Route, route_object, route_admitted, condition_true,
}
use horreum_operator.Checks.Check.{find_admitted, find_decided, check_route}

-- The conditions of every ingress, in order.
abbrev pub all_conditions : List RouteIngress → List Condition
all_conditions [] = []
all_conditions (ri ∷ rest) = ri.conditions ++ all_conditions rest

-- The first condition of the type `Admitted` has the status `True`.
abbrev pub FirstAdmitted : List Condition → Type 0
FirstAdmitted [] = ⊥
FirstAdmitted (c ∷ rest) =
    if c.type == route_admitted then c.status ≡ condition_true else FirstAdmitted rest

abbrev Passes : Option (Bool × String × String) → Type 0
Passes none = ⊥
Passes (some v) = v.0 ≡ true

find_admitted-++ :
    (cs ds : List Condition)
    → find_admitted (cs ++ ds)
      ≡ elim (find_admitted cs) [ some v ↦ some v | none ↦ find_admitted ds ]
unfolding find_admitted
find_admitted-++ [] ds = refl
find_admitted-++ (c ∷ cs) ds = elim (Bool-cases (c.type == route_admitted)) [
  | inl e ↦ rw e refl
  | inr e ↦ rw e (find_admitted-++ cs ds)
]

find_decided_lem :
    (ingress : List RouteIngress) → find_decided ingress ≡ find_admitted (all_conditions ingress)
unfolding find_decided
find_decided_lem [] = refl
find_decided_lem (ri ∷ rest) = elim (Option-cases (find_admitted ri.conditions)) [
  | inl e ↦
      rw (find_decided, find_admitted-++ ri.conditions (all_conditions rest), e)
        (find_decided_lem rest)
  | inr (v, e) ↦ rw (find_decided, find_admitted-++ ri.conditions (all_conditions rest), e) refl
]

find_admitted_iff : (cs : List Condition) → Passes (find_admitted cs) ↔ FirstAdmitted cs
unfolding find_admitted
find_admitted_iff [] = (λ h. h, λ h. h)
find_admitted_iff (c ∷ cs) = elim (Bool-cases (c.type == route_admitted)) [
  | inl e ↦ ground (arith, eq_iff c.status condition_true)
  | inr e ↦ ground (arith, find_admitted_iff cs)
]

-- The check of a route passes exactly when, of all conditions of all ingresses in order, the first
-- one of the type `Admitted` exists and has the status `True`.
pub check_route_iff :
    (r : Route)
    → ((check_route (route_object r)).0 ≡ true) ↔ FirstAdmitted (all_conditions r.ingress)
unfolding check_route
check_route_iff r =
    let decided = find_decided_lem r.ingress in
    elim (Option-cases (find_admitted (all_conditions r.ingress))) [
      | inl e ↦ ground (arith, decided, e, find_admitted_iff (all_conditions r.ingress))
      | inr (v, e) ↦ ground (arith, decided, e, find_admitted_iff (all_conditions r.ingress))
    ]
