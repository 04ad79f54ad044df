-- ===== src/Scope/Ensure.antt =====
-- `ensureSame` and `ensureDeleted` on an object of the namespace of the custom resource.
use horreum_operator.Common.{
  ◌<>◌, ◌≡◌, refl, ◌∙◌, ap, ◌⊎◌, inl, inr, true, false, Option, none, some,
}
use horreum_operator.Objects.{
  Kind, Resource, NamespacedName, ObjectMeta, to_object, meta, with_meta, key_of,
}
use horreum_operator.Crd.{Horreum}
use horreum_operator.Cluster.{Api, Reply, found, failed, call, pure, raise, ◌>>◌}
use horreum_operator.Status.{set_status, update_status}
use horreum_operator.Certs.{Crypto}
use horreum_operator.Ensure.{
  CompareFunc, CheckFunc, Verdict, describe, create_object, recreate_object, report, settle,
  ensure_owned, ensure_same, discard, ensure_deleted,
}
use horreum_operator.Ensure.Truthful.{KeepsKeys, IsFault, IsFaultFinding, meta-with_meta}
use horreum_operator.Scope.{here, next, got, created, deleted}
use horreum_operator.Scope.Rules.{
  IsConfined, Confined, pure-Confined, raise-IsConfined, if-IsConfined, bind-IsConfined,
  then-IsConfined, call-IsConfined, set_status-Confined, report_error-Confined,
}

module _ (api : Api) (crypto : Crypto api) (cr : Horreum) where
  -- The object lies in the namespace of the custom resource.
  abbrev pub IsLocal : (k : Kind) → Resource k → Type 0
  IsLocal k object = (meta k object).namespace ≡ cr.metadata.namespace

  -- The object was found under a key of the namespace of the custom resource.
  abbrev WasFound : (k : Kind) → Resource k → Type 0
  WasFound k object =
      (key : NamespacedName) × (w : api.World) × (key.namespace ≡ cr.metadata.namespace)
      × ((api.get k key w).0 ≡ found object)

  pub create-Confined :
      (k : Kind) (object : Resource k)
      → IsLocal k object
      → Confined api crypto cr (call api (api.create k object))
  create-Confined k object local = record {
    runs = λ s. next here (created s k object local);
    returns = λ s a e. tt;
  }

  delete-Confined :
      (k : Kind) (object : Resource k)
      → WasFound k object
      → Confined api crypto cr (call api (api.delete k object))
  delete-Confined k object (key, w, local, there) = record {
    runs = λ s. next here (deleted s k key object w local there);
    returns = λ s a e. tt;
  }

  create_object-Confined :
      (k : Kind) (object : Resource k)
      → IsLocal k object
      → Confined api crypto cr (create_object api cr k object)
  unfolding create_object
  create_object-Confined k object local =
      then-IsConfined api crypto cr _ _ (create-Confined k object local) λ error. after error
    where
      after :
          (error : Option api.Error)
          → Confined api crypto cr (elim error [
            | none ↦ set_status api "Pending" ("Creating " <> describe k object)
            | some e ↦
                update_status api cr "Error" ("Cannot create " <> describe k object) >> raise e
          ])
      after none = set_status-Confined api crypto cr "Pending" _ (inr refl)
      after (some e) = report_error-Confined api crypto cr _ e

  recreate_object-Confined :
      (k : Kind) (object out : Resource k)
      → IsLocal k object
      → WasFound k out
      → Confined api crypto cr (recreate_object api cr k object out)
  unfolding recreate_object
  recreate_object-Confined k object out local there =
      then-IsConfined api crypto cr _ _ (delete-Confined k out there) λ error. after error
    where
      after :
          (error : Option api.Error)
          → Confined api crypto cr (elim error [
            | none ↦ create_object api cr k object
            | some e ↦
                update_status api cr "Error" ("Cannot delete " <> describe k object) >> raise e
          ])
      after none = create_object-Confined k object local
      after (some e) = report_error-Confined api crypto cr _ e

  report-Confined :
      (k : Kind) (object : Resource k) (verdict : Verdict)
      → IsFault verdict
      → Confined api crypto cr (report api cr k object verdict)
  unfolding report
  report-Confined k object (well, status, reason) fault =
      if-IsConfined api crypto cr well (λ _. pure-Confined api crypto cr tt)
        (λ e. set_status-Confined api crypto cr status _ (named fault e))
    where
      named :
          (well ≡ true) ⊎ (status ≡ "Error") ⊎ (status ≡ "Pending")
          → well ≡ false
          → (status ≡ "Error") ⊎ (status ≡ "Pending")
      named (inl w) e = cc
      named (inr h) e = h

  settle-Confined :
      (k : Kind) (object : Resource k) (compare : CompareFunc) (check : CheckFunc)
      → IsFaultFinding check
      → IsLocal k object
      → (reply : Reply api.Error (Resource k))
      → ((out : Resource k) → reply ≡ found out → WasFound k out)
      → Confined api crypto cr (settle api cr k object compare check reply)
  unfolding settle
  settle-Confined k object compare check fault local (failed e) there =
      if-IsConfined api crypto cr (api.is_not_found e)
        (λ _.
          then-IsConfined api crypto cr _ _ (create_object-Confined k object local)
            (λ _. pure-Confined api crypto cr none))
        (λ _. report_error-Confined api crypto cr _ e)
  settle-Confined k object compare check fault local (found out) there =
      if-IsConfined api crypto cr (compare (to_object k object) (to_object k out))
        (λ _.
          then-IsConfined api crypto cr _ _
            (report-Confined k object (check (to_object k out)) (fault (to_object k out)))
            (λ _. pure-Confined api crypto cr (some out)))
        (λ _.
          then-IsConfined api crypto cr _ _
            (recreate_object-Confined k object out local (there out refl))
            (λ _. pure-Confined api crypto cr (some out)))

  pub get-IsConfined :
      (k : Kind) (key : NamespacedName)
      → IsConfined api crypto cr
          (call api (api.get k key))
          (λ reply. (w : api.World) × ((api.get k key w).0 ≡ reply))
  get-IsConfined k key = call-IsConfined api crypto cr (api.get k key) (λ w. got w k key)

  ensure_owned-Confined :
      (k : Kind) (object : Resource k) (compare : CompareFunc) (check : CheckFunc)
      → IsFaultFinding check
      → IsLocal k object
      → Confined api crypto cr (ensure_owned api cr k object compare check)
  unfolding ensure_owned
  ensure_owned-Confined k object compare check fault local =
      bind-IsConfined api crypto cr _ _ _ (get-IsConfined k (key_of (meta k object)))
        (λ reply (w, e).
          settle-Confined k object compare check fault local reply
            (λ out h. (key_of (meta k object), w, local, e ∙ h)))

  pub ensure_same-Confined :
      KeepsKeys api
      → (k : Kind) (object : Resource k) (compare : CompareFunc) (check : CheckFunc)
      → IsFaultFinding check
      → IsLocal k object
      → Confined api crypto cr (ensure_same api cr k object compare check)
  unfolding ensure_same
  ensure_same-Confined keeps k object compare check fault local =
      owned (api.set_controller_reference cr (meta k object)) refl
    where
      owned :
          (reply : Reply api.Error ObjectMeta)
          → api.set_controller_reference cr (meta k object) ≡ reply
          → Confined api crypto cr (elim reply [
            | failed e ↦ raise e
            | found m ↦ ensure_owned api cr k (with_meta k object m) compare check
          ])
      owned (failed e) _ = raise-IsConfined api crypto cr e
      owned (found m) e = ensure_owned-Confined k (with_meta k object m) compare check fault (
          ap (λ (x : ObjectMeta). x.namespace) (meta-with_meta k object m)
          ∙ ap (λ (x : NamespacedName). x.namespace) (keeps cr (meta k object) m e)
          ∙ local)

  discard-Confined :
      (k : Kind) (object : Resource k) (reply : Reply api.Error (Resource k))
      → ((out : Resource k) → reply ≡ found out → WasFound k out)
      → Confined api crypto cr (discard api cr k object reply)
  unfolding discard
  discard-Confined k object (failed e) there =
      if-IsConfined api crypto cr (api.is_not_found e) (λ _. pure-Confined api crypto cr tt)
        (λ _. report_error-Confined api crypto cr _ e)
  discard-Confined k object (found out) there =
      then-IsConfined api crypto cr _ _ (delete-Confined k out (there out refl))
        λ error. after error
    where
      after :
          (error : Option api.Error)
          → Confined api crypto cr (elim error [
            | none ↦ pure tt
            | some e ↦
                update_status api cr "Error" ("Cannot delete " <> describe k object) >> raise e
          ])
      after none = pure-Confined api crypto cr tt
      after (some e) = report_error-Confined api crypto cr _ e

  pub ensure_deleted-Confined :
      (k : Kind) (object : Resource k)
      → IsLocal k object
      → Confined api crypto cr (ensure_deleted api cr k object)
  unfolding ensure_deleted
  ensure_deleted-Confined k object local =
      bind-IsConfined api crypto cr _ _ _ (get-IsConfined k (key_of (meta k object)))
        (λ reply (w, e).
          discard-Confined k object reply (λ out h. (key_of (meta k object), w, local, e ∙ h)))
