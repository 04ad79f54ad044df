-- ===== src/Ensure/Placed.antt =====
-- `ensureSame` over a store of objects.
use horreum_operator.Common.{
  ◌<>◌, ◌≡◌, refl, sym, ◌∙◌, ap, Bool-cases, inl, inr, Option, none, some,
}
use mathlib.Core.Path.{subst}
use horreum_operator.Objects.{
  Kind, Resource, to_object, meta, with_meta, key_of, ObjectMeta, NamespacedName,
}
use horreum_operator.Crd.{Horreum}
use horreum_operator.Cluster.{Api, State, Reply, found, failed, pure, raise, ok, ◌>>◌}
use horreum_operator.Status.{set_status, update_status}
use horreum_operator.Status.Truthful.{Observation, observe, IsQuiet}
use horreum_operator.Status.Keyed.{IsKeyed, IsElsewhere}
use horreum_operator.Ensure.{
  CompareFunc, CheckFunc, describe, create_object, recreate_object, report, settle, ensure_owned,
  ensure_same,
}
use horreum_operator.Ensure.Truthful.{KeepsKeys, meta-with_meta}
use horreum_operator.Ensure.Leaves.{
  Server, IsStore, placed, Leaves, raise-Leaves, weaken-Leaves, bind-Leaves, call-Leaves, IsPut,
  set_status-Leaves, report-Leaves,
}

module _ (api : Api) (quiet : IsQuiet api) (keyed : IsKeyed api) (server : Server)
    (store : IsStore api server) (cr : Horreum) where
  -- The object is there as the server makes it.
  abbrev pub IsMade : (k : Kind) → Resource k → Observation api → Observation api → Type 0
  IsMade k object = IsPut api k (key_of (meta k object)) (found (server k object))

  create_object-Leaves :
      (k : Kind) (object : Resource k)
      → Leaves api (create_object api cr k object) (λ o _ o'. IsMade k object o o')
  unfolding create_object
  create_object-Leaves k object =
      bind-Leaves api (λ o error o'. error ≡ none → IsMade k object o o') _ _
        (call-Leaves api (api.create k object) (λ w none_failed. (
          store.created k object w none_failed,
          λ j other apart. keyed.create_elsewhere k object w j other apart,
        )))
        λ error. after error
    where
      after :
          (error : Option api.Error)
          → Leaves api
              (elim error [
                | none ↦ set_status api "Pending" ("Creating " <> describe k object)
                | some e ↦
                    update_status api cr "Error" ("Cannot create " <> describe k object) >> raise e
              ])
              (λ o _ o''.
                (o0 : Observation api)
                → (error ≡ none → IsMade k object o0 o)
                → IsMade k object o0 o'')
      after none =
          weaken-Leaves api
            (λ o _ o'' same o0 made. subst (IsMade k object o0) (sym same) (made refl))
            (set_status-Leaves api quiet "Pending" ("Creating " <> describe k object))
      after (some e) =
          bind-Leaves api (λ _ _ _. Unit {0}) _ _ (record { leaves = λ s a h. tt })
            (λ _. raise-Leaves api e)

  recreate_object-Leaves :
      (k : Kind) (object out : Resource k)
      → key_of (meta k out) ≡ key_of (meta k object)
      → Leaves api (recreate_object api cr k object out) (λ o _ o'. IsMade k object o o')
  unfolding recreate_object
  recreate_object-Leaves k object out same_key =
      bind-Leaves api
        (λ o _ o'.
          (j : Kind) (other : NamespacedName)
          → IsElsewhere k (key_of (meta k object)) j other
          → o' j other ≡ o j other)
        _ _
        (call-Leaves api (api.delete k out)
          (λ w j other apart. keyed.delete_elsewhere k out w j other (rw same_key apart)))
        λ error. after error
    where
      after :
          (error : Option api.Error)
          → Leaves api
              (elim error [
                | none ↦ create_object api cr k object
                | some e ↦
                    update_status api cr "Error" ("Cannot delete " <> describe k object) >> raise e
              ])
              (λ o _ o''.
                (o0 : Observation api)
                → ((j : Kind) (other : NamespacedName)
                    → IsElsewhere k (key_of (meta k object)) j other
                    → o j other ≡ o0 j other)
                → IsMade k object o0 o'')
      after none =
          weaken-Leaves api
            (λ o _ o'' (there, elsewhere) o0 before.
              (there, λ j other apart. elsewhere j other apart ∙ before j other apart))
            (create_object-Leaves k object)
      after (some e) =
          bind-Leaves api (λ _ _ _. Unit {0}) _ _ (record { leaves = λ s a h. tt })
            (λ _. raise-Leaves api e)

  settle-Leaves :
      (k : Kind) (object : Resource k) (compare : CompareFunc) (check : CheckFunc)
      (reply : Reply api.Error (Resource k))
      → ((out : Resource k) → reply ≡ found out → key_of (meta k out) ≡ key_of (meta k object))
      → Leaves api (settle api cr k object compare check reply) (λ o _ o'.
        o k (key_of (meta k object)) ≡ reply
        → IsPut api k (key_of (meta k object)) (found (placed server compare k object reply)) o o')
  unfolding settle
  settle-Leaves k object compare check (failed e) same_key =
      elim (Bool-cases (api.is_not_found e)) [
        | inl missing ↦ rw missing (
            bind-Leaves api (λ o _ o'. IsMade k object o o') (create_object api cr k object)
              (λ _. pure none) (create_object-Leaves k object)
              (λ _. record { leaves = λ s a h o0 made _. made }))
        | inr broken ↦ rw broken (
            bind-Leaves api (λ _ _ _. Unit {0})
              (update_status api cr "Error" ("Cannot find " <> describe k object)) (λ _. raise e)
              (record { leaves = λ s a h. tt }) (λ _. raise-Leaves api e))
      ]
  settle-Leaves k object compare check (found out) same_key =
      elim (Bool-cases (compare (to_object k object) (to_object k out))) [
        | inl same ↦ rw same (
            bind-Leaves api (λ o _ o'. o' ≡ o) (report api cr k object (check (to_object k out)))
              (λ _. pure (some out)) (report-Leaves api quiet cr k object (check (to_object k out)))
              (λ _. record {
                leaves = λ s a h o0 still there. (
                  ap (λ (o : Observation api). o k (key_of (meta k object))) still ∙ there,
                  λ j other apart. ap (λ (o : Observation api). o j other) still,
                );
              }))
        | inr differs ↦ rw differs (
            bind-Leaves api (λ o _ o'. IsMade k object o o') (recreate_object api cr k object out)
              (λ _. pure (some out)) (recreate_object-Leaves k object out (same_key out refl))
              (λ _. record { leaves = λ s a h o0 made _. made }))
      ]

  ensure_owned-Leaves :
      (k : Kind) (object : Resource k) (compare : CompareFunc) (check : CheckFunc)
      → Leaves api (ensure_owned api cr k object compare check) (λ o _ o'.
        IsPut api k
          (key_of (meta k object))
          (found (placed server compare k object (o k (key_of (meta k object)))))
          o
          o')
  unfolding ensure_owned
  ensure_owned-Leaves k object compare check = record {
    leaves = λ s a e.
        let key = key_of (meta k object) in
        let still : observe api (api.get k key s.world).1 ≡ observe api s.world =
          quiet.get_quiet k key s.world in
        let (there, elsewhere) =
          (settle-Leaves k object compare check (observe api s.world k key)
              (λ out answer. keyed.answered k key s.world out answer)).leaves
            (record s { world = (api.get k key s.world).1 }) a e
            (ap (λ (o : Observation api). o k key) still) in
        (
          there,
          λ j other apart. elsewhere j other apart ∙ ap (λ (o : Observation api). o j other) still,
        );
  }

pub ensure_same-owned :
    (api : Api) (cr : Horreum) (k : Kind) (object : Resource k) (compare : CompareFunc)
    (check : CheckFunc) (m : ObjectMeta)
    → api.set_controller_reference cr (meta k object) ≡ found m
    → (s : State api)
    → ensure_same api cr k object compare check s
      ≡ ensure_owned api cr k (with_meta k object m) compare check s
unfolding ensure_same
ensure_same-owned api cr k object compare check m owned s = rw (ensure_same, owned) refl

-- If an object of the key is put or removed at once and nothing else is changed meanwhile, then after
-- a call of `ensureSame` that ends by a value the key holds what was there, if it matched the desired
-- object with its owner, and else the desired object with its owner as the server makes it; every
-- other object is left as it was.
pub ensure_same-placed :
    (api : Api) (server : Server) (cr : Horreum) (k : Kind) (object : Resource k)
    (compare : CompareFunc) (check : CheckFunc) (m : ObjectMeta)
    → IsQuiet api
    → IsKeyed api
    → IsStore api server
    → KeepsKeys api
    → api.set_controller_reference cr (meta k object) ≡ found m
    → (s : State api) (out : Option (Resource k))
    → (ensure_same api cr k object compare check s).0 ≡ ok out
    → IsPut api k
        (key_of (meta k object))
        (found (
          placed server compare k
            (with_meta k object m)
            (observe api s.world k (key_of (meta k object)))))
        (observe api s.world)
        (observe api (ensure_same api cr k object compare check s).1.world)
ensure_same-placed api server cr k object compare check m quiet keyed store keeps owned s out e =
    let same : key_of (meta k (with_meta k object m)) ≡ key_of (meta k object) =
      ap key_of (meta-with_meta k object m) ∙ keeps cr (meta k object) m owned in
    let whole = ensure_same-owned api cr k object compare check m owned s in
    let there =
      (ensure_owned-Leaves api quiet keyed server store cr k (with_meta k object m) compare
          check).leaves
        s out (rw whole at e) in
    rw whole (rw same at there)
