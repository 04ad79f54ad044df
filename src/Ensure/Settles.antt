-- ===== src/Ensure/Settles.antt =====
-- A second call of `ensureSame`.
use horreum_operator.Common.{◌<>◌, ◌≡◌, refl, ◌∙◌, ap, Bool-cases, true, inl, inr, Option, some}
use horreum_operator.Objects.{Kind, Resource, to_object, meta, with_meta, key_of, ObjectMeta}
use horreum_operator.Crd.{Horreum}
use horreum_operator.Cluster.{Api, State, Reply, found, failed, pure, ok, >>=-of-ok}
use horreum_operator.Status.Truthful.{observe, IsQuiet}
use horreum_operator.Status.Keyed.{IsKeyed}
use horreum_operator.Status.Sticky.{set_status_lem}
use horreum_operator.Ensure.{
  CompareFunc, CheckFunc, Verdict, describe, report, settle, ensure_owned, ensure_same,
}
use horreum_operator.Ensure.Truthful.{KeepsKeys, meta-with_meta}
use horreum_operator.Ensure.Leaves.{Server, IsStore, placed, report-Leaves}
use horreum_operator.Ensure.Placed.{ensure_same-owned, ensure_same-placed}

report-ok :
    (api : Api) (cr : Horreum) (k : Kind) (object : Resource k) (verdict : Verdict) (s : State api)
    → (report api cr k object verdict s).0 ≡ ok tt
unfolding report
report-ok api cr k object (well, status, reason) s = elim (Bool-cases well) [
  | inl e ↦ rw e refl
  | inr e ↦ elim (set_status_lem api status (describe k object <> " " <> reason) s) [
    | inl (_, _, same) ↦ rw (e, same) refl
    | inr (_, same) ↦ rw (e, same) refl
  ]
]

placed-matches :
    {E : Type 0} (server : Server) (compare : CompareFunc) (k : Kind) (object : Resource k)
    → compare (to_object k object) (to_object k (server k object)) ≡ true
    → (reply : Reply E (Resource k))
    → compare (to_object k object) (to_object k (placed server compare k object reply)) ≡ true
placed-matches server compare k object accepts (failed _) = accepts
placed-matches server compare k object accepts (found out) =
    elim (Bool-cases (compare (to_object k object) (to_object k out))) [
      | inl same ↦ rw (placed, same) same
      | inr differs ↦ rw (placed, differs) accepts
    ]

-- An object that is there and matches.
ensure_owned-matched :
    (api : Api) (cr : Horreum) (k : Kind) (object x : Resource k) (compare : CompareFunc)
    (check : CheckFunc)
    → IsQuiet api
    → (s : State api) → observe api s.world k (key_of (meta k object)) ≡ found x
    → compare (to_object k object) (to_object k x) ≡ true
    → ((ensure_owned api cr k object compare check s).0 ≡ ok (some x))
      × (observe api (ensure_owned api cr k object compare check s).1.world ≡ observe api s.world)
unfolding ensure_owned settle
ensure_owned-matched api cr k object x compare check quiet s there same =
    let t : State api = record s { world = (api.get k (key_of (meta k object)) s.world).1 } in
    let whole =
      >>=-of-ok (report api cr k object (check (to_object k x))) (λ _. pure (some x)) t
        (report-ok api cr k object (check (to_object k x)) t) in
    rw (there, same)
      (rw whole (
        refl,
        (report-Leaves api quiet cr k object (check (to_object k x))).leaves t tt
              (report-ok api cr k object (check (to_object k x)) t)
            ∙ quiet.get_quiet k (key_of (meta k object)) s.world,
      ))

-- After a call of `ensureSame` that ends by a value, a second one finds the object that the first one
-- left, returns it and changes no object, whatever the check says; provided that nothing else is
-- changed meanwhile, that an object of the key is put or removed at once, and that the desired object
-- with its owner compares as equal to what the server makes of it.
pub ensure_same-settles :
    (api : Api) (server : Server) (cr : Horreum) (k : Kind) (object : Resource k)
    (compare : CompareFunc) (check : CheckFunc) (m : ObjectMeta)
    → IsQuiet api
    → IsKeyed api
    → IsStore api server
    → KeepsKeys api
    → api.set_controller_reference cr (meta k object) ≡ found m
    → compare (to_object k (with_meta k object m)) (to_object k (server k (with_meta k object m)))
      ≡ true
    → (s s1 : State api) (out : Option (Resource k))
    → ensure_same api cr k object compare check s ≡ (ok out, s1)
    → ((x : Resource k) × (observe api s1.world k (key_of (meta k object)) ≡ found x)
        × ((ensure_same api cr k object compare check s1).0 ≡ ok (some x)))
      × (observe api (ensure_same api cr k object compare check s1).1.world ≡ observe api s1.world)
ensure_same-settles api server cr k object compare check m quiet keyed store keeps owned accepts s
      s1 out e =
    let desired = with_meta k object m in
    let key : key_of (meta k desired) ≡ key_of (meta k object) =
      ap key_of (meta-with_meta k object m) ∙ keeps cr (meta k object) m owned in
    let before = observe api s.world k (key_of (meta k object)) in
    let x = placed server compare k desired before in
    let (first, _) =
      ensure_same-placed api server cr k object compare check m quiet keyed store keeps owned s out
        (ap (λ p. p.0) e) in
    let there : observe api s1.world k (key_of (meta k object)) ≡ found x = rw e at first in
    let (again, still) =
      ensure_owned-matched api cr k desired x compare check quiet s1
        (ap (observe api s1.world k) key ∙ there)
        (placed-matches server compare k desired accepts before) in
    rw (ensure_same-owned api cr k object compare check m owned s1) ((x, there, again), still)
