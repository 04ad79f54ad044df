-- ===== src/Reconcile/Stale.antt =====
-- The URL of a route that is replaced.
use horreum_operator.Common.{◌≡◌, refl, false, none, some, Bool-cases, inl, inr}
use horreum_operator.Objects.{Kind, Route, ObjectMeta, route_object, key_of}
use horreum_operator.Crd.{Horreum}
use horreum_operator.Cluster.{Api, State, found, ok, ◌>>=◌}
use horreum_operator.Status.{keeps_error, set_status}
use horreum_operator.Urls.{get_route_url}
use horreum_operator.Checks.{compare_route}
use horreum_operator.Ensure.{create_object, recreate_object, settle, ensure_owned, ensure_same}
use horreum_operator.Reconcile.Phases.{route_url}

-- If a route is there but does not match, and can be deleted and created anew, the URL that the
-- reconciliation goes on with is that of the deleted route.
pub route_url-replaced :
    (api : Api) (cr : Horreum) (route old : Route) (m : ObjectMeta) (s : State api)
    → api.set_controller_reference cr route.metadata ≡ found m
    → (api.get Kind.route (key_of m) s.world).0 ≡ found old
    → compare_route (route_object (record route { metadata = m })) (route_object old) ≡ false
    → ((w : api.World) → (api.delete Kind.route old w).0 ≡ none)
    → ((w : api.World) → (api.create Kind.route (record route { metadata = m }) w).0 ≡ none)
    → (route_url api cr (some route) s).0 ≡ ok (get_route_url old)
unfolding route_url ensure_same ensure_owned settle recreate_object create_object set_status
route_url-replaced api cr route old m s owned there differs deleted created =
    elim (Bool-cases (keeps_error s.status "Pending")) [
      | inl keeps ↦
          rw (owned, ◌>>=◌) (rw (there, differs, ◌>>=◌) (rw (deleted, created, keeps) refl))
      | inr sets ↦ rw (owned, ◌>>=◌) (rw (there, differs, ◌>>=◌) (rw (deleted, created, sets) refl))
    ]
