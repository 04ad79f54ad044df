-- ===== src/Ensure.antt =====
-- `ensureSame` and `ensureDeleted` of controllers/horreum_controller.go.
pub mod Truthful
pub mod Errors
pub mod Leaves
pub mod Placed
pub mod Settles
pub mod Gone
use horreum_operator.Common.{String, ◌<>◌, Bool, Option, none, some, if◌then◌else◌}
use horreum_operator.Objects.{Kind, Resource, Object, kind_name, to_object, meta, with_meta, key_of}
use horreum_operator.Crd.{Horreum}
use horreum_operator.Cluster.{Api, State, M, Reply, found, failed, call, pure, raise, ◌>>=◌, ◌>>◌}
use horreum_operator.Status.{set_status, update_status}

abbrev pub CompareFunc : Type 0
CompareFunc = Object → Object → Bool

-- Whether the object is well, and if not the status and the reason to show.
abbrev pub Verdict : Type 0
Verdict = Bool × String × String

abbrev pub CheckFunc : Type 0
CheckFunc = Object → Verdict

abbrev pub describe : (k : Kind) → Resource k → String
describe k object = kind_name k <> " " <> (meta k object).name

module _ (api : Api) (cr : Horreum) where
  -- The calls of `Create` in `ensureSame`, with what follows them.
  unfoldable pub create_object : (k : Kind) → Resource k → M api (Unit {0})
  create_object k object = do
    error ← call api (api.create k object)
    elim error [
      | none ↦ set_status api "Pending" ("Creating " <> describe k object)
      | some e ↦ update_status api cr "Error" ("Cannot create " <> describe k object) >> raise e
    ]

  -- The branch of an object that exists and does not match.
  unfoldable pub recreate_object : (k : Kind) → Resource k → Resource k → M api (Unit {0})
  unfolding create_object
  recreate_object k object out = do
    error ← call api (api.delete k out)
    elim error [
      | none ↦ create_object k object
      | some e ↦ update_status api cr "Error" ("Cannot delete " <> describe k object) >> raise e
    ]

  -- The branch of an object that exists and matches.
  unfoldable pub report : (k : Kind) → Resource k → Verdict → M api (Unit {0})
  report k object (well, status, reason) =
      if well then pure tt else set_status api status (describe k object <> " " <> reason)

  -- All that follows the first `Get`. The result is what `out` points to: nothing was read into it
  -- if the object did not exist, and it is the old object after a replacement.
  unfoldable pub settle :
      (k : Kind)
      → Resource k
      → CompareFunc
      → CheckFunc
      → Reply api.Error (Resource k)
      → M api (Option (Resource k))
  unfolding recreate_object report
  settle k object compare check (failed e) =
      if api.is_not_found e
      then create_object k object >> pure none
      else update_status api cr "Error" ("Cannot find " <> describe k object) >> raise e
  settle k object compare check (found out) =
      if compare (to_object k object) (to_object k out)
      then report k object (check (to_object k out)) >> pure (some out)
      else recreate_object k object out >> pure (some out)

  unfoldable pub ensure_owned :
      (k : Kind) → Resource k → CompareFunc → CheckFunc → M api (Option (Resource k))
  unfolding settle
  ensure_owned k object compare check = do
    reply ← call api (api.get k (key_of (meta k object)))
    settle k object compare check reply

  unfoldable pub ensure_same :
      (k : Kind) → Resource k → CompareFunc → CheckFunc → M api (Option (Resource k))
  unfolding ensure_owned
  ensure_same k object compare check = elim (api.set_controller_reference cr (meta k object)) [
    | failed e ↦ raise e
    | found m ↦ ensure_owned k (with_meta k object m) compare check
  ]

  -- The branch of an object that exists.
  unfoldable pub discard : (k : Kind) → Resource k → Reply api.Error (Resource k) → M api (Unit {0})
  discard k object (failed e) =
      if api.is_not_found e
      then pure tt
      else update_status api cr "Error" ("Cannot find " <> describe k object) >> raise e
  discard k object (found out) = do
    error ← call api (api.delete k out)
    elim error [
      | none ↦ pure tt
      | some e ↦ update_status api cr "Error" ("Cannot delete " <> describe k object) >> raise e
    ]

  unfoldable pub ensure_deleted : (k : Kind) → Resource k → M api (Unit {0})
  unfolding discard
  ensure_deleted k object = do
    reply ← call api (api.get k (key_of (meta k object)))
    discard k object reply
