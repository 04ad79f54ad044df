-- ===== src/Scope.antt =====
-- What `Reconcile` may do to the cluster and to the status, as a step relation.
pub mod Rules
pub mod Ensure
pub mod Values
pub mod Authority
pub mod Phases
pub mod Whole
pub mod Frame
pub mod Request
use horreum_operator.Common.{ℕ, String, ◌≡◌, ◌≢◌, ◌⊎◌}
use horreum_operator.Objects.{Kind, Resource, NamespacedName, meta}
use horreum_operator.Crd.{Horreum, Time}
use horreum_operator.Cluster.{Api, State, found}
use horreum_operator.Certs.{Crypto, Certificate}

module _ (api : Api) (crypto : Crypto api) where
  -- Calls that change no object.
  pub data Reads : api.World → api.World → Type 0 where
    got : (w : api.World) (k : Kind) (key : NamespacedName) → Reads w (api.get k key w).1
    told : (w : api.World) → Reads w (api.now w).1
    seeded : (w : api.World) → Reads w (api.seed w)
    drawn : (w : api.World) (n : ℕ) → Reads w (api.rand_intn n w).1
    keyed : (w : api.World) (bits : ℕ) → Reads w (crypto.generate_key bits w).1
    signed :
        (w : api.World) (template parent : Certificate) (key signer : crypto.PrivateKey)
        → Reads w (crypto.create_certificate template parent key signer w).1

  module _ (cr : Horreum) where
    -- One step. Objects are made in the namespace of the custom resource, and deleted as they were
    -- found under a key of this namespace; the custom resource is sent as it is but for its status;
    -- `Pending` does not cover `Error`.
    pub data Step : State api → State api → Type 0 where
      read : (s : State api) (w : api.World) → Reads s.world w → Step s (record s { world = w })
      created :
          (s : State api) (k : Kind) (object : Resource k)
          → (meta k object).namespace ≡ cr.metadata.namespace
          → Step s (record s { world = (api.create k object s.world).1 })
      deleted :
          (s : State api) (k : Kind) (key : NamespacedName) (object : Resource k) (w : api.World)
          → key.namespace ≡ cr.metadata.namespace
          → (api.get k key w).0 ≡ found object
          → Step s (record s { world = (api.delete k object s.world).1 })
      sent :
          (s : State api)
          → Step s
              (record s { world = api.update_status (record cr { status = s.status }) s.world })
      faulted :
          (s : State api) (reason : String) (time : Time)
          → Step s (record s {
            status = record s.status { status = "Error"; reason = reason; last_update = time };
          })
      waits :
          (s : State api) (reason : String) (time : Time)
          → s.status.status ≢ "Error"
          → Step s (record s {
            status = record s.status { status = "Pending"; reason = reason; last_update = time };
          })
      exposed :
          (s : State api) (url : String)
          → Step s (record s { status = record s.status { public_url = url } })
      exposed_keycloak :
          (s : State api) (url : String)
          → Step s (record s { status = record s.status { keycloak_url = url } })

    pub data Steps (s : State api) : State api → Type 0 where
      here : Steps s s
      next : {t u : State api} → Steps s t → Step t u → Steps s u

    pub Steps-trans : {s t u : State api} → Steps s t → Steps t u → Steps s u
    Steps-trans p here = p
    Steps-trans p (next q x) = next (Steps-trans p q) x
