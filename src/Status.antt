-- ===== src/Status.antt =====
-- `setStatus` and `updateStatus` of controllers/horreum_controller.go.
pub mod Truthful
pub mod Keyed
pub mod Sticky
pub mod Overall
use horreum_operator.Common.{String, Bool, ◌==◌, ◌&&◌, if◌then◌else◌, string_eq}
use horreum_operator.Crd.{Horreum, HorreumStatus, Time}
use horreum_operator.Cluster.{Api, State, M, call, call_unit, ok, ◌>>=◌, ◌>>◌}

-- The status that a call leaves, at the time of the call.
unfoldable pub next_status : HorreumStatus → String → String → Time → HorreumStatus
next_status old status reason time = record old {
  status = status;
  reason = reason;
  last_update = time;
}

-- An error is not covered up by a wait.
unfoldable pub keeps_error : HorreumStatus → String → Bool
keeps_error old status = old.status == "Error" && status == "Pending"

module _ (api : Api) where
  unfoldable pub set_status : String → String → M api (Unit {0})
  unfolding next_status
  set_status status reason s =
      if keeps_error s.status status
      then (ok tt, s)
      else let (time, w) = api.now s.world in
        (ok tt, record { world = w; status = next_status s.status status reason time })

  -- `r.Status().Update` sends the custom resource with the status of the moment.
  unfoldable pub publish : Horreum → M api (Unit {0})
  publish cr s =
      (ok tt, record s { world = api.update_status (record cr { status = s.status }) s.world })

  unfoldable pub update_status : Horreum → String → String → M api (Unit {0})
  unfolding set_status publish
  update_status cr status reason = do set_status status reason; publish cr
