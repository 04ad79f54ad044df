-- ===== src/Status/Keyed.antt =====
-- The API server as a store with keys.
use horreum_operator.Common.{◌≡◌, ◌≢◌, ◌⊎◌}
use horreum_operator.Objects.{Kind, Resource, NamespacedName, meta, key_of}
use horreum_operator.Crd.{Horreum}
use horreum_operator.Cluster.{Api, found}
use horreum_operator.Status.Truthful.{observe}

-- The second kind and key name another object than the first.
abbrev pub IsElsewhere : Kind → NamespacedName → Kind → NamespacedName → Type 0
IsElsewhere k key j other = (j ≢ k) ⊎ (other ≢ key)

-- An answer to `Get` is the object of this key, and making or deleting an object changes no other
-- object.
pub record IsKeyed (api : Api) : Type 0 where
  pub answered :
      (k : Kind) (key : NamespacedName) (w : api.World) (object : Resource k)
      → observe api w k key ≡ found object
      → key_of (meta k object) ≡ key
  pub create_elsewhere :
      (k : Kind) (object : Resource k) (w : api.World) (j : Kind) (key : NamespacedName)
      → IsElsewhere k (key_of (meta k object)) j key
      → observe api (api.create k object w).1 j key ≡ observe api w j key
  pub delete_elsewhere :
      (k : Kind) (object : Resource k) (w : api.World) (j : Kind) (key : NamespacedName)
      → IsElsewhere k (key_of (meta k object)) j key
      → observe api (api.delete k object w).1 j key ≡ observe api w j key

-- The custom resource is read by its key, without a change to an object.
pub record IsAnswering (api : Api) : Type 0 where
  pub horreum_quiet :
      (request : NamespacedName) (w : api.World)
      → observe api (api.get_horreum request w).1 ≡ observe api w
  pub horreum_answered :
      (request : NamespacedName) (w : api.World) (cr : Horreum)
      → (api.get_horreum request w).0 ≡ found cr
      → cr.metadata.namespace ≡ request.namespace
