-- ===== src/Steady/Ensure.antt =====
-- `ensureSame` on an object that is there, matches and is well.
use horreum_operator.Common.{◌≡◌, refl, sym, ◌∙◌, ap, some}
use mathlib.Core.Path.{subst}
use horreum_operator.Objects.{
  Kind, Resource, NamespacedName, ObjectMeta, to_object, meta, with_meta, key_of,
}
use horreum_operator.Crd.{Horreum}
use horreum_operator.Cluster.{Api, M, Reply, found, call, ◌>>=◌}
use horreum_operator.Status.Truthful.{Observation, observe, IsQuiet}
use horreum_operator.Ensure.{CompareFunc, CheckFunc, ensure_same}
use horreum_operator.Ensure.Truthful.{KeepsKeys, IgnoresMeta, IsHealthy, meta-with_meta}
use horreum_operator.Ensure.Errors.{ensure_same-well}
use horreum_operator.Steady.{IsSteady, bind-IsSteady, call-IsSteady, weaken-IsSteady}

-- `SetControllerReference` succeeds.
abbrev pub CanOwn : Api → Horreum → Type 0
CanOwn api cr =
    (m : ObjectMeta) → (m' : ObjectMeta) × (api.set_controller_reference cr m ≡ found m')

module _ (api : Api) (o : Observation api) (quiet : IsQuiet api) where
  pub get-IsSteady :
      (k : Kind) (key : NamespacedName)
      → IsSteady api o (call api (api.get k key)) (λ reply. o k key ≡ reply)
  get-IsSteady k key =
      weaken-IsSteady api o
        (λ reply (w, seen, e). ap (λ (f : Observation api). f k key) (sym seen) ∙ e)
        (call-IsSteady api o (api.get k key) (quiet.get_quiet k key))

  -- The action that follows a read of an object that is there.
  pub found-IsSteady :
      {B : Type 0} {Q : B → Type 0} (k : Kind) (key : NamespacedName) (object : Resource k)
      (f : Reply api.Error (Resource k) → M api B)
      → o k key ≡ found object
      → IsSteady api o (f (found object)) Q
      → IsSteady api o (call api (api.get k key) >>= f) Q
  found-IsSteady {Q} k key object f there h =
      bind-IsSteady api o _ _ f (get-IsSteady k key)
        (λ reply answer. subst (λ r. IsSteady api o (f r) Q) (sym there ∙ answer) h)

  module _ (cr : Horreum) (keeps : KeepsKeys api) (owns : CanOwn api cr) where
    pub ensure_same-IsSteady :
        (k : Kind) (object : Resource k) (compare : CompareFunc) (check : CheckFunc)
        → IgnoresMeta k compare
        → (healthy : IsHealthy api o k object compare check)
        → IsSteady api o (ensure_same api cr k object compare check) (λ out. out ≡ some healthy.0)
    ensure_same-IsSteady k object compare check blind (out, there, same, well) = record {
      stays = λ s seen ready.
          let (m, owned) = owns (meta k object) in
          let key : key_of (meta k (with_meta k object m)) ≡ key_of (meta k object) =
            ap key_of (meta-with_meta k object m) ∙ keeps cr (meta k object) m owned in
          let found_there : observe api s.world k (key_of (meta k (with_meta k object m)))
              ≡ found out =
            ap (observe api s.world k) key
            ∙ ap (λ (f : Observation api). f k (key_of (meta k object))) seen
            ∙ there in
          let whole =
            ensure_same-well api cr k object out compare check m s owned found_there
              (blind object m (to_object k out) ∙ same) well in
          rw whole (some out, refl, refl, quiet.get_quiet k _ s.world ∙ seen, ready);
    }
