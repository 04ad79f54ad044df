-- ===== src/Reconcile/Start.antt =====
-- The first write of the status.
use horreum_operator.Common.{
  ◌≡◌, refl, ap, ◌∙◌, ◌⊎◌, inl, inr, Bool-cases, ◌!=◌, string_eq, eq_iff, arith,
}
use horreum_operator.Crd.{Horreum}
use horreum_operator.Cluster.{Api, State, ok}
use horreum_operator.Status.Truthful.{IsQuiet, observe}
use horreum_operator.Reconcile.Phases.{start_status}

pub start_status-cases :
    (api : Api) (cr : Horreum) (s : State api)
    → ((start_status api cr s).0 ≡ ok tt)
      × ((start_status api cr s).1.status.status ≡ "Ready")
      × (((start_status api cr s).1.world ≡ s.world)
          ⊎ ((start_status api cr s).1.world ≡ (api.now s.world).1))
unfolding start_status
start_status-cases api cr s = elim (Bool-cases (s.status.status != "Ready")) [
  | inl e ↦ rw e (refl, refl, inr refl)
  | inr e ↦ rw e (refl, ground (arith, e, eq_iff s.status.status "Ready"), inl refl)
]

pub start_status-observe :
    (api : Api) (cr : Horreum)
    → IsQuiet api
    → (s : State api) → observe api (start_status api cr s).1.world ≡ observe api s.world
start_status-observe api cr quiet s = after (start_status-cases api cr s).2
  where
    after :
        ((start_status api cr s).1.world ≡ s.world)
          ⊎ ((start_status api cr s).1.world ≡ (api.now s.world).1)
        → observe api (start_status api cr s).1.world ≡ observe api s.world
    after (inl e) = ap (observe api) e
    after (inr e) = ap (observe api) e ∙ quiet.now_quiet s.world
