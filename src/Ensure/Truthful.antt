-- ===== src/Ensure/Truthful.antt =====
-- `ensureSame` and the status `Ready`.
use horreum_operator.Common.{
  ◌<>◌, ◌≡◌, refl, sym, ◌≢◌, ◌⊎◌, ◌∙◌, ap, true, false, Option, none, some, arith, inl, inr, eq_iff,
}
use horreum_operator.Objects.{
  Kind, Resource, Object, to_object, meta, with_meta, key_of, ObjectMeta, NamespacedName,
}
use horreum_operator.Crd.{Horreum}
use horreum_operator.Cluster.{Api, State, Reply, found, failed, call, raise, ok, ◌>>◌}
use horreum_operator.Status.{set_status, update_status}
use horreum_operator.Status.Truthful.{
  Observation, observe, IsReady, IsQuiet, IsTruthful, Stops, pure-IsTruthful, raise-Stops,
  weaken-IsTruthful, Stops-IsTruthful, if-IsTruthful, bind-IsTruthful, last-Stops, first-Stops,
  set_status-Stops, Pending-ne-Ready,
}
use horreum_operator.Ensure.{
  CompareFunc, CheckFunc, Verdict, describe, create_object, recreate_object, report, settle,
  ensure_owned, ensure_same,
}

-- The owner reference leaves the name and the namespace of an object as they are.
abbrev pub KeepsKeys : Api → Type 0
KeepsKeys api =
    (cr : Horreum) (m m' : ObjectMeta)
    → api.set_controller_reference cr m ≡ found m'
    → key_of m' ≡ key_of m

-- A verdict is good, or names one of the two statuses other than `Ready`.
abbrev pub IsFault : Verdict → Type 0
IsFault verdict = (verdict.0 ≡ true) ⊎ (verdict.1 ≡ "Error") ⊎ (verdict.1 ≡ "Pending")

abbrev pub IsFaultFinding : CheckFunc → Type 0
IsFaultFinding check = (o : Object) → IsFault (check o)

IsFault-ne-Ready : (verdict : Verdict) → IsFault verdict → verdict.0 ≡ false → verdict.1 ≢ "Ready"
IsFault-ne-Ready verdict (inl h) e ready = cc
IsFault-ne-Ready verdict (inr (inl h)) e ready = ground (arith, eq_iff "Error" "Ready")
IsFault-ne-Ready verdict (inr (inr h)) e ready = Pending-ne-Ready (sym h ∙ ready)

-- A comparison that does not look at the metadata of the desired object.
abbrev pub IgnoresMeta : (k : Kind) → CompareFunc → Type 0
IgnoresMeta k compare =
    (object : Resource k) (m : ObjectMeta) (o : Object)
    → compare (to_object k (with_meta k object m)) o ≡ compare (to_object k object) o

pub meta-with_meta :
    (k : Kind) (object : Resource k) (m : ObjectMeta) → meta k (with_meta k object m) ≡ m
meta-with_meta Kind.pod object m = refl
meta-with_meta Kind.service object m = refl
meta-with_meta Kind.secret object m = refl
meta-with_meta Kind.config_map object m = refl
meta-with_meta Kind.route object m = refl

module _ (api : Api) where
  -- The object of this key is there, matches the desired object and passes its check.
  abbrev pub IsHealthy :
      Observation api → (k : Kind) → Resource k → CompareFunc → CheckFunc → Type 0
  IsHealthy o k object compare check =
      (out : Resource k) × (o k (key_of (meta k object)) ≡ found out)
      × (compare (to_object k object) (to_object k out) ≡ true)
      × ((check (to_object k out)).0 ≡ true)

  module _ (cr : Horreum) where
    create_object-Stops :
        (k : Kind) (object : Resource k) → Stops api (create_object api cr k object)
    unfolding create_object
    create_object-Stops k object =
        last-Stops api (call api (api.create k object)) _ λ error. after error
      where
        after :
            (error : Option api.Error)
            → Stops api (elim error [
              | none ↦ set_status api "Pending" ("Creating " <> describe k object)
              | some e ↦
                  update_status api cr "Error" ("Cannot create " <> describe k object) >> raise e
            ])
        after none = set_status-Stops api _ _ Pending-ne-Ready
        after (some e) = last-Stops api _ _ (λ _. raise-Stops api e)

    recreate_object-Stops :
        (k : Kind) (object out : Resource k) → Stops api (recreate_object api cr k object out)
    unfolding recreate_object
    recreate_object-Stops k object out =
        last-Stops api (call api (api.delete k out)) _ λ error. after error
      where
        after :
            (error : Option api.Error)
            → Stops api (elim error [
              | none ↦ create_object api cr k object
              | some e ↦
                  update_status api cr "Error" ("Cannot delete " <> describe k object) >> raise e
            ])
        after none = create_object-Stops k object
        after (some e) = last-Stops api _ _ (λ _. raise-Stops api e)

    report-IsTruthful :
        (k : Kind) (object : Resource k) (verdict : Verdict)
        → IsFault verdict
        → IsTruthful api (report api cr k object verdict) (λ _ _. verdict.0 ≡ true)
    unfolding report
    report-IsTruthful k object (well, status, reason) fault =
        if-IsTruthful api well (λ e. weaken-IsTruthful api (λ _ _ _. e) (pure-IsTruthful api tt))
          (λ e.
            Stops-IsTruthful api
              (set_status-Stops api _ _ (IsFault-ne-Ready (well, status, reason) fault e)))

    settle-IsTruthful :
        (k : Kind) (object : Resource k) (compare : CompareFunc) (check : CheckFunc)
        → IsFaultFinding check
        → (reply : Reply api.Error (Resource k))
        → IsTruthful api (settle api cr k object compare check reply) (λ out _.
          (out' : Resource k) × (reply ≡ found out')
          × (out ≡ some out')
          × (compare (to_object k object) (to_object k out') ≡ true)
          × ((check (to_object k out')).0 ≡ true))
    unfolding settle
    settle-IsTruthful k object compare check fault (failed e) =
        if-IsTruthful api (api.is_not_found e)
          (λ _. first-Stops api _ _ (create_object-Stops k object) (λ _. pure-IsTruthful api none))
          (λ _. last-Stops api _ _ (λ _. raise-Stops api e))
    settle-IsTruthful k object compare check fault (found out) =
        if-IsTruthful api (compare (to_object k object) (to_object k out))
          (λ same.
            bind-IsTruthful api _ _
              (report-IsTruthful k object (check (to_object k out)) (fault (to_object k out)))
              (λ _.
                weaken-IsTruthful api (λ a o e well. (out, refl, e, same, well))
                  (pure-IsTruthful api (some out))))
          (λ _.
            first-Stops api _ _ (recreate_object-Stops k object out)
              (λ _. pure-IsTruthful api (some out)))

    module _ (quiet : IsQuiet api) where
      pub get-IsTruthful :
          (k : Kind) (key : NamespacedName)
          → IsTruthful api (call api (api.get k key)) (λ reply o. o k key ≡ reply)
      get-IsTruthful k key = record {
        holds = λ s a e ready. (
          ready,
          quiet.get_quiet k key s.world,
          ap (λ (o : Observation api). o k key) (quiet.get_quiet k key s.world) ∙ cc e,
        );
      }

      ensure_owned-IsTruthful :
          (k : Kind) (object : Resource k) (compare : CompareFunc) (check : CheckFunc)
          → IsFaultFinding check
          → IsTruthful api
              (ensure_owned api cr k object compare check)
              (λ out o. IsHealthy o k object compare check)
      unfolding ensure_owned
      ensure_owned-IsTruthful k object compare check fault =
          bind-IsTruthful api _ _ (get-IsTruthful k (key_of (meta k object))) (λ reply.
            weaken-IsTruthful api (λ out o (out', r, _, same, well) e. (out', e ∙ r, same, well))
              (settle-IsTruthful k object compare check fault reply))

      pub ensure_same-IsTruthful :
          KeepsKeys api
          → (k : Kind) (object : Resource k) (compare : CompareFunc) (check : CheckFunc)
          → IgnoresMeta k compare
          → IsFaultFinding check
          → IsTruthful api
              (ensure_same api cr k object compare check)
              (λ out o. IsHealthy o k object compare check)
      unfolding ensure_same
      ensure_same-IsTruthful keeps k object compare check blind fault =
          owned (api.set_controller_reference cr (meta k object)) refl
        where
          owned :
              (reply : Reply api.Error ObjectMeta)
              → api.set_controller_reference cr (meta k object) ≡ reply
              → IsTruthful api
                  (elim reply [
                    | failed e ↦ raise e
                    | found m ↦ ensure_owned api cr k (with_meta k object m) compare check
                  ])
                  (λ out o. IsHealthy o k object compare check)
          owned (failed e) _ = Stops-IsTruthful api (raise-Stops api e)
          owned (found m) e =
              weaken-IsTruthful api
                (λ out o (out', r, same, well). (
                  out',
                  ap (o k) (
                        sym (keeps cr (meta k object) m e)
                        ∙ ap key_of (sym (meta-with_meta k object m)))
                      ∙ r,
                  sym (blind object m (to_object k out')) ∙ same,
                  well,
                ))
                (ensure_owned-IsTruthful k (with_meta k object m) compare check fault)

-- If no other actor changes objects, the owner reference keeps the name, the comparison ignores the
-- metadata of the desired object, and the check names `Error` or `Pending` for every fault, then
-- after a call of `ensureSame` that ends by a value with the status `Ready`, `Ready` was the status
-- before it, no object was changed, and the object is there, matches and passes its check.
pub ensure_same-Ready :
    (api : Api) (cr : Horreum) (k : Kind) (object : Resource k) (compare : CompareFunc)
    (check : CheckFunc) (s : State api) (out : Option (Resource k))
    → IsQuiet api
    → KeepsKeys api
    → IgnoresMeta k compare
    → IsFaultFinding check
    → (ensure_same api cr k object compare check s).0 ≡ ok out
    → IsReady (ensure_same api cr k object compare check s).1.status
    → IsReady s.status
      × (observe api (ensure_same api cr k object compare check s).1.world ≡ observe api s.world)
      × IsHealthy api
          (observe api (ensure_same api cr k object compare check s).1.world)
          k
          object
          compare
          check
ensure_same-Ready api cr k object compare check s out quiet keeps blind fault e ready =
    (ensure_same-IsTruthful api cr quiet keeps k object compare check blind fault).holds s out e
      ready
