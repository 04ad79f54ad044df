-- ===== src/Status/Sticky.antt =====
-- `setStatus` and `updateStatus`, case by case.
use horreum_operator.Common.{
  String, ◌≡◌, refl, ◌≢◌, ◌⊎◌, ◌↔◌, true, Bool-cases, inl, inr, eq_iff, arith, string_eq,
}
use horreum_operator.Crd.{Horreum, HorreumStatus}
use horreum_operator.Cluster.{Api, State, ok, ◌>>=◌}
use horreum_operator.Status.{keeps_error, next_status, set_status, publish, update_status}

module _ (api : Api) where
  -- The state in which a status has been set without a condition.
  abbrev pub written : String → String → State api → State api
  written status reason s = record {
    world = (api.now s.world).1;
    status = record {
      status = status;
      last_update = (api.now s.world).0;
      reason = reason;
      public_url = s.status.public_url;
      keycloak_url = s.status.keycloak_url;
    };
  }

  keeps_error_iff :
      (old : HorreumStatus) (status : String)
      → (keeps_error old status ≡ true) ↔ ((old.status ≡ "Error") × (status ≡ "Pending"))
  unfolding keeps_error
  keeps_error_iff old status = ground (arith, eq_iff old.status "Error", eq_iff status "Pending")

  -- `setStatus` leaves the state as it is if `Pending` would cover `Error`, and in every other case
  -- overwrites the status with the reason and the time.
  pub set_status_lem :
      (status reason : String) (s : State api)
      → ((s.status.status ≡ "Error")
          × (status ≡ "Pending")
          × (set_status api status reason s ≡ (ok tt, s)))
        ⊎ ((¬ ((s.status.status ≡ "Error") × (status ≡ "Pending")))
            × (set_status api status reason s ≡ (ok tt, written status reason s)))
  unfolding set_status next_status
  set_status_lem status reason s = elim (Bool-cases (keeps_error s.status status)) [
    | inl keeps ↦
        let (e, p) = (keeps_error_iff s.status status).0 keeps in inl (e, p, rw keeps refl)
    | inr sets ↦ inr (λ h. ground (arith, keeps_error_iff s.status status, h), rw sets refl)
  ]

  -- An error is written and sent.
  pub update_status-Error :
      (cr : Horreum) (reason : String) (s : State api)
      → update_status api cr "Error" reason s ≡ (
        ok tt,
        record (written "Error" reason s) {
          world =
              api.update_status
                (record cr { status = (written "Error" reason s).status })
                (api.now s.world).1;
        },
      )
  unfolding update_status publish
  update_status-Error cr reason s = rw (overwrites, ◌>>=◌) (rw overwrites refl)
    where
      Error-ne-Pending : ◌≢◌ {A = String} "Error" "Pending"
      Error-ne-Pending h = ground (arith, eq_iff "Error" "Pending")

      overwrites : set_status api "Error" reason s ≡ (ok tt, written "Error" reason s)
      overwrites = elim (set_status_lem "Error" reason s) [
        | inl (_, p, _) ↦ absurd (Error-ne-Pending p)
        | inr (_, e) ↦ e
      ]
