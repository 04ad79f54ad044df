-- ===== src/Ensure/Leaves.antt =====
-- What an action leaves in the cluster when it ends by a value: one rule for each way to build one.
use horreum_operator.Common.{
  String, ◌<>◌, ◌≡◌, refl, Bool-cases, true, inl, inr, none, if◌then◌else◌,
}
use mathlib.Core.Path.{subst}
use horreum_operator.Objects.{Kind, Resource, to_object, meta, key_of, NamespacedName}
use horreum_operator.Crd.{Horreum}
use horreum_operator.Cluster.{
  Api, State, M, Reply, found, failed, call, raise, ok, >>=-eq-ok, ◌>>=◌,
}
use horreum_operator.Status.{set_status}
use horreum_operator.Status.Truthful.{Observation, observe, IsQuiet}
use horreum_operator.Status.Keyed.{IsElsewhere}
use horreum_operator.Status.Sticky.{set_status_lem}
use horreum_operator.Ensure.{CompareFunc, Verdict, describe, report}

-- What the API server makes of an object that it is sent.
abbrev pub Server : Type 0
Server = (k : Kind) → Resource k → Resource k

-- A store of objects: a call of `Create` or `Delete` without an error puts or removes the object at
-- once.
pub record IsStore (api : Api) (server : Server) : Type 0 where
  pub created :
      (k : Kind) (object : Resource k) (w : api.World)
      → (api.create k object w).0 ≡ none
      → observe api (api.create k object w).1 k (key_of (meta k object)) ≡ found (server k object)
  pub deleted :
      (k : Kind) (object : Resource k) (w : api.World)
      → (api.delete k object w).0 ≡ none
      → (e : api.Error) × (observe api (api.delete k object w).1 k (key_of (meta k object))
          ≡ failed e)
        × (api.is_not_found e ≡ true)

-- What is to be found after `ensureSame`, by what was found before it: the object itself if it
-- matches, else the desired one as the server makes it.
abbrev pub placed :
    {E : Type 0}
    → Server
    → CompareFunc
    → (k : Kind) → Resource k
    → Reply E (Resource k)
    → Resource k
placed server compare k object (found out) =
    if compare (to_object k object) (to_object k out) then out else server k object
placed server compare k object (failed _) = server k object

module _ (api : Api) where
  -- If the action ends by a value, `P` holds of the objects before it, the value and the objects
  -- after it.
  pub record Leaves {A : Type 0} (m : M api A) (P : Observation api → A → Observation api → Type 0)
      : Type 0 where
    pub leaves :
        (s : State api) (a : A)
        → (m s).0 ≡ ok a
        → P (observe api s.world) a (observe api (m s).1.world)

  module _ {A : Type 0} {P : Observation api → A → Observation api → Type 0} where
    pub raise-Leaves : (e : api.Error) → Leaves (raise e) P
    raise-Leaves e = record { leaves = λ s a h. cc }

    pub weaken-Leaves :
        {Q : Observation api → A → Observation api → Type 0} {m : M api A}
        → ((o : Observation api) (a : A) (o' : Observation api) → Q o a o' → P o a o')
        → Leaves m Q
        → Leaves m P
    weaken-Leaves w h = record { leaves = λ s a e. w _ a _ (h.leaves s a e) }

  pub bind-Leaves :
      {A B : Type 0} (P : Observation api → A → Observation api → Type 0)
      {Q : Observation api → B → Observation api → Type 0} (m : M api A) (f : A → M api B)
      → Leaves m P
      → ((a : A) → Leaves (f a) (λ o b o''. (o0 : Observation api) → P o0 a o → Q o0 b o''))
      → Leaves (m >>= f) Q
  bind-Leaves P m f hm hf = record {
    leaves = λ s b e.
        let (a, ma, whole) = >>=-eq-ok m f s e in
        rw whole ((hf a).leaves (m s).1 b (rw whole at e) (observe api s.world) (hm.leaves s a ma));
  }

  -- The object is put under the key, and every other object is left alone.
  abbrev pub IsPut :
      (k : Kind)
      → NamespacedName
      → Reply api.Error (Resource k)
      → Observation api
      → Observation api
      → Type 0
  IsPut k key reply o o' =
      (o' k key ≡ reply)
      × ((j : Kind) (other : NamespacedName) → IsElsewhere k key j other → o' j other ≡ o j other)

  abbrev pub IsMissing : Observation api → Kind → NamespacedName → Type 0
  IsMissing o k key = (e : api.Error) × (o k key ≡ failed e) × (api.is_not_found e ≡ true)

  -- Nothing is there under the key, and every other object is left alone.
  abbrev pub IsGone : Kind → NamespacedName → Observation api → Observation api → Type 0
  IsGone k key o o' =
      IsMissing o' k key
      × ((j : Kind) (other : NamespacedName) → IsElsewhere k key j other → o' j other ≡ o j other)

  pub call-Leaves :
      {A : Type 0} {P : Observation api → A → Observation api → Type 0}
      (f : api.World → A × api.World)
      → ((w : api.World) → P (observe api w) (f w).0 (observe api (f w).1))
      → Leaves (call api f) P
  call-Leaves {P} f h = record {
    leaves = λ s a e.
        let same : (f s.world).0 ≡ a = cc in
        subst (λ x. P (observe api s.world) x (observe api (f s.world).1)) same (h s.world);
  }

  module _ (quiet : IsQuiet api) where
    pub set_status-Leaves :
        (status reason : String) → Leaves (set_status api status reason) (λ o _ o'. o' ≡ o)
    set_status-Leaves status reason = record {
      leaves = λ s a e. elim (set_status_lem api status reason s) [
        | inl (_, _, same) ↦ rw same refl
        | inr (_, same) ↦ rw same (quiet.now_quiet s.world)
      ];
    }

    pub report-Leaves :
        (cr : Horreum) (k : Kind) (object : Resource k) (verdict : Verdict)
        → Leaves (report api cr k object verdict) (λ o _ o'. o' ≡ o)
    unfolding report
    report-Leaves cr k object (well, status, reason) = elim (Bool-cases well) [
      | inl e ↦ rw e (record { leaves = λ s a h. refl })
      | inr e ↦ rw e (set_status-Leaves status (describe k object <> " " <> reason))
    ]
