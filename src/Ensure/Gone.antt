-- ===== src/Ensure/Gone.antt =====
-- `ensureDeleted` over a store of objects.
use horreum_operator.Common.{
  ◌<>◌, ◌≡◌, refl, sym, ◌∙◌, ap, Bool-cases, inl, inr, Option, none, some,
}
use horreum_operator.Objects.{Kind, Resource, meta, key_of}
use horreum_operator.Crd.{Horreum}
use horreum_operator.Cluster.{Api, Reply, found, failed, pure, raise, ◌>>◌}
use horreum_operator.Status.{update_status}
use horreum_operator.Status.Truthful.{Observation, observe, IsQuiet}
use horreum_operator.Status.Keyed.{IsKeyed}
use horreum_operator.Ensure.{describe, discard, ensure_deleted}
use horreum_operator.Ensure.Leaves.{
  Server, IsStore, Leaves, raise-Leaves, bind-Leaves, call-Leaves, IsGone,
}

module _ (api : Api) (quiet : IsQuiet api) (keyed : IsKeyed api) (server : Server)
    (store : IsStore api server) (cr : Horreum) where
  discard-Leaves :
      (k : Kind) (object : Resource k) (reply : Reply api.Error (Resource k))
      → ((out : Resource k) → reply ≡ found out → key_of (meta k out) ≡ key_of (meta k object))
      → Leaves api (discard api cr k object reply) (λ o _ o'.
        o k (key_of (meta k object)) ≡ reply → IsGone api k (key_of (meta k object)) o o')
  unfolding discard
  discard-Leaves k object (failed e) same_key = elim (Bool-cases (api.is_not_found e)) [
    | inl missing ↦
        rw missing (record { leaves = λ s a h there. ((e, there, missing), λ j other apart. refl) })
    | inr broken ↦ rw broken (
        bind-Leaves api (λ _ _ _. Unit {0})
          (update_status api cr "Error" ("Cannot find " <> describe k object)) (λ _. raise e)
          (record { leaves = λ s a h. tt }) (λ _. raise-Leaves api e))
  ]
  discard-Leaves k object (found out) same_key =
      bind-Leaves api (λ o error o'. error ≡ none → IsGone api k (key_of (meta k object)) o o') _ _
        (call-Leaves api (api.delete k out) (λ w none_failed.
          let (e, gone, missing) = store.deleted k out w none_failed in
          (
            (
              e,
              ap (observe api (api.delete k out w).1 k) (sym (same_key out refl)) ∙ gone,
              missing,
            ),
            λ j other apart. keyed.delete_elsewhere k out w j other (rw (same_key out refl) apart),
          )))
        λ error. after error
    where
      after :
          (error : Option api.Error)
          → Leaves api
              (elim error [
                | none ↦ pure tt
                | some e ↦
                    update_status api cr "Error" ("Cannot delete " <> describe k object) >> raise e
              ])
              (λ o _ o''.
                (o0 : Observation api)
                → (error ≡ none → IsGone api k (key_of (meta k object)) o0 o)
                → o0 k (key_of (meta k object)) ≡ found out
                → IsGone api k (key_of (meta k object)) o0 o'')
      after none = record { leaves = λ s a h o0 gone _. gone refl }
      after (some e) =
          bind-Leaves api (λ _ _ _. Unit {0}) _ _ (record { leaves = λ s a h. tt })
            (λ _. raise-Leaves api e)

  pub ensure_deleted-Leaves :
      (k : Kind) (object : Resource k)
      → Leaves api
          (ensure_deleted api cr k object)
          (λ o _ o'. IsGone api k (key_of (meta k object)) o o')
  unfolding ensure_deleted
  ensure_deleted-Leaves k object = record {
    leaves = λ s a e.
        let key = key_of (meta k object) in
        let still : observe api (api.get k key s.world).1 ≡ observe api s.world =
          quiet.get_quiet k key s.world in
        let (gone, elsewhere) =
          (discard-Leaves k object (observe api s.world k key)
              (λ out answer. keyed.answered k key s.world out answer)).leaves
            (record s { world = (api.get k key s.world).1 }) a e
            (ap (λ (o : Observation api). o k key) still) in
        (
          gone,
          λ j other apart. elsewhere j other apart ∙ ap (λ (o : Observation api). o j other) still,
        );
  }
