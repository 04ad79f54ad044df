-- ===== src/Scope/Frame.antt =====
-- What the steps of a reconciliation keep.
use horreum_operator.Common.{ℕ, String, ◌≡◌, refl, ◌∙◌, ap, ◌≢◌, ◌⊎◌, inl, inr, string_eq}
use horreum_operator.Objects.{Kind, Resource, NamespacedName, meta, key_of}
use horreum_operator.Crd.{Horreum, HorreumReconciler}
use horreum_operator.Cluster.{Api, State, Reply, ok, >>=-of-ok, >>-instead, ◌>>=◌, ◌>>◌}
use horreum_operator.Status.{next_status}
use horreum_operator.Status.Truthful.{IsQuiet, observe}
use horreum_operator.Certs.{Crypto, Certificate}
use horreum_operator.Status.Keyed.{IsKeyed}
use horreum_operator.Ensure.Truthful.{KeepsKeys}
use horreum_operator.Reconcile.{start_status, certificates, secrets, postgres, reconcile_valid}
use horreum_operator.Reconcile.Start.{start_status-cases, start_status-observe}
use horreum_operator.Scope.{
  Reads, got, told, seeded, drawn, keyed, signed, Step, read, created, deleted, sent, faulted,
  waits, exposed, exposed_keycloak, Steps, here, next,
}
use horreum_operator.Scope.Whole.{fronted, fronted-Confined, started-Confined}

-- Keys and certificates are made without the cluster.
pub record IsOffline (api : Api) (crypto : Crypto api) : Type 0 where
  pub keyed_quiet :
      (bits : ℕ) (w : api.World) → observe api (crypto.generate_key bits w).1 ≡ observe api w
  pub signed_quiet :
      (template parent : Certificate) (key signer : crypto.PrivateKey) (w : api.World)
      → observe api (crypto.create_certificate template parent key signer w).1 ≡ observe api w

-- The three statuses that the operator writes.
abbrev pub IsKnown : String → Type 0
IsKnown status = (status ≡ "Ready") ⊎ (status ≡ "Pending") ⊎ (status ≡ "Error")

module _ (api : Api) (crypto : Crypto api) (cr : Horreum) where
  Step-IsKnown :
      {s t : State api} → Step api crypto cr s t → IsKnown s.status.status → IsKnown t.status.status
  unfolding next_status
  Step-IsKnown (read s w h) k = k
  Step-IsKnown (created s _ _ _) k = k
  Step-IsKnown (deleted s _ _ _ _ _ _) k = k
  Step-IsKnown (sent s) k = k
  Step-IsKnown (faulted s reason time) k = inr (inr refl)
  Step-IsKnown (waits s reason time h) k = inr (inl refl)
  Step-IsKnown (exposed s url) k = k
  Step-IsKnown (exposed_keycloak s url) k = k

  Steps-IsKnown :
      {s t : State api}
      → IsKnown s.status.status
      → Steps api crypto cr s t
      → IsKnown t.status.status
  Steps-IsKnown k here = k
  Steps-IsKnown k (next p x) = Step-IsKnown x (Steps-IsKnown k p)

  Step-Error :
      {s t : State api}
      → Step api crypto cr s t
      → s.status.status ≡ "Error"
      → t.status.status ≡ "Error"
  unfolding next_status
  Step-Error (read s w h) e = e
  Step-Error (created s _ _ _) e = e
  Step-Error (deleted s _ _ _ _ _ _) e = e
  Step-Error (sent s) e = e
  Step-Error (faulted s reason time) e = refl
  Step-Error (waits s reason time h) e = absurd (h e)
  Step-Error (exposed s url) e = e
  Step-Error (exposed_keycloak s url) e = e

  Steps-Error :
      {s t : State api}
      → s.status.status ≡ "Error"
      → Steps api crypto cr s t
      → t.status.status ≡ "Error"
  Steps-Error e here = e
  Steps-Error e (next p x) = Step-Error x (Steps-Error e p)

  module _ (quiet : IsQuiet api) (apart : IsKeyed api) (offline : IsOffline api crypto) where
    Reads-observe : {v w : api.World} → Reads api crypto v w → observe api w ≡ observe api v
    Reads-observe (got w k key) = quiet.get_quiet k key w
    Reads-observe (told w) = quiet.now_quiet w
    Reads-observe (seeded w) = quiet.seed_quiet w
    Reads-observe (drawn w n) = quiet.rand_quiet n w
    Reads-observe (keyed w bits) = offline.keyed_quiet bits w
    Reads-observe (signed w t p k s) = offline.signed_quiet t p k s w

    module _ (j : Kind) (key : NamespacedName)
        (outside : key.namespace ≢ cr.metadata.namespace) where
      -- The object of the key in the world of a state.
      abbrev seen : State api → Reply api.Error (Resource j)
      seen s = observe api s.world j key

      other_key :
          (k : Kind) (object : Resource k)
          → (meta k object).namespace ≡ cr.metadata.namespace
          → key ≢ key_of (meta k object)
      other_key k object local e = outside (ap (λ (x : NamespacedName). x.namespace) e ∙ local)

      Step-seen : {s t : State api} → Step api crypto cr s t → seen t ≡ seen s
      Step-seen (read s w h) = ap (λ f. f j key) (Reads-observe h)
      Step-seen (created s k object local) =
          apart.create_elsewhere k object s.world j key (inr (other_key k object local))
      Step-seen (deleted s k found_key object w local there) =
          apart.delete_elsewhere k object s.world j key (
            inr (
              other_key k object (
                ap (λ (x : NamespacedName). x.namespace) (apart.answered k found_key w object there)
                ∙ local)))
      Step-seen (sent s) = ap (λ f. f j key) (quiet.update_quiet _ s.world)
      Step-seen (faulted s reason time) = refl
      Step-seen (waits s reason time h) = refl
      Step-seen (exposed s url) = refl
      Step-seen (exposed_keycloak s url) = refl

      pub Steps-seen : {s t : State api} → Steps api crypto cr s t → seen t ≡ seen s
      Steps-seen here = refl
      Steps-seen (next p x) = Step-seen x ∙ Steps-seen p

-- If an owner reference keeps an object's name, a reconciliation with a valid custom resource runs,
-- after it has set the status to `Ready`, by steps of the relation `Step` alone, whatever it ends by:
-- it makes objects in the namespace of the custom resource alone, deletes only what was found under a
-- key of this namespace, sends the custom resource as it was but for its status, and never covers
-- `Error` by `Pending`.
pub reconcile_valid-Steps :
    (api : Api) (crypto : Crypto api) (r : HorreumReconciler) (cr : Horreum)
    → KeepsKeys api
    → (s : State api)
    → Steps api crypto cr (start_status api cr s).1 (reconcile_valid api crypto r cr s).1
unfolding reconcile_valid
reconcile_valid-Steps api crypto r cr keeps s =
    rw ((start_status-cases api cr s).0, ◌>>=◌)
      ((started-Confined api crypto cr keeps r).runs (start_status api cr s).1)

-- Whatever a reconciliation ends by, error and panic included, it leaves every object outside the
-- namespace of the custom resource as it was; provided that no one else changes an object meanwhile,
-- that the API server answers by key and changes the object of one key at a time, and that an owner
-- reference keeps an object's name.
pub reconcile_valid-outside :
    (api : Api) (crypto : Crypto api) (r : HorreumReconciler) (cr : Horreum)
    → KeepsKeys api
    → IsQuiet api
    → IsKeyed api
    → IsOffline api crypto
    → (s : State api) (k : Kind) (key : NamespacedName) → key.namespace ≢ cr.metadata.namespace
    → observe api (reconcile_valid api crypto r cr s).1.world k key ≡ observe api s.world k key
reconcile_valid-outside api crypto r cr keeps quiet apart offline s k key outside =
    Steps-seen api crypto cr quiet apart offline k key outside
      (reconcile_valid-Steps api crypto r cr keeps s)
    ∙ ap (λ f. f k key) (start_status-observe api cr quiet s)

-- Whatever a reconciliation with a valid custom resource ends by, it leaves one of the statuses
-- `Ready`, `Pending` and `Error`, whatever the status was.
pub reconcile_valid-IsKnown :
    (api : Api) (crypto : Crypto api) (r : HorreumReconciler) (cr : Horreum)
    → KeepsKeys api
    → (s : State api) → IsKnown (reconcile_valid api crypto r cr s).1.status.status
reconcile_valid-IsKnown api crypto r cr keeps s =
    Steps-IsKnown api crypto cr (inl (start_status-cases api cr s).1)
      (reconcile_valid-Steps api crypto r cr keeps s)

-- If the certificates, the secrets and the database are dealt with and leave the status `Error`, it is
-- the status at the end too, whatever the rest of the reconciliation does and ends by.
pub reconcile_valid-keeps_error :
    (api : Api) (crypto : Crypto api) (r : HorreumReconciler) (cr : Horreum)
    → KeepsKeys api
    → (s t : State api)
    → (do start_status api cr; certificates api crypto r cr; secrets api cr; postgres api r cr) s
      ≡ (ok tt, t)
    → t.status.status ≡ "Error"
    → (reconcile_valid api crypto r cr s).1.status.status ≡ "Error"
unfolding reconcile_valid
reconcile_valid-keeps_error api crypto r cr keeps s t e failed =
    rw
      (>>-instead (start_status api cr) _ _ s e λ s1 e1.
        >>-instead (certificates api crypto r cr) _ _ s1 e1 λ s2 e2.
          >>-instead (secrets api cr) _ (postgres api r cr >> fronted api crypto cr keeps r) s2 e2
            λ s3 e3.
              >>=-of-ok (postgres api r cr) (λ _. fronted api crypto cr keeps r) s3
                (ap (λ p. p.0) e3)
              ∙ ap (λ p. fronted api crypto cr keeps r p.1) e3)
      (Steps-Error api crypto cr failed ((fronted-Confined api crypto cr keeps r).runs t))
