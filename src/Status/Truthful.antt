-- ===== src/Status/Truthful.antt =====
-- Actions after which the status `Ready` can be believed: what holds of the objects in the cluster
-- whenever the action ends by a value with the status `Ready`.
use horreum_operator.Common.{
  ℕ, String, ◌≡◌, refl, sym, ◌≢◌, ◌∙◌, inl, inr, Bool, true, false, Bool-cases, arith,
  if◌then◌else◌, eq_iff, string_eq,
}
use mathlib.Core.Path.{subst}
use horreum_operator.Objects.{Kind, Resource, NamespacedName}
use horreum_operator.Crd.{Horreum, HorreumStatus}
use horreum_operator.Cluster.{Api, State, M, Reply, call, pure, raise, crash, ok, ◌>>=◌, >>=-eq-ok}
use horreum_operator.Status.{keeps_error, set_status, publish, update_status}

abbrev pub IsReady : HorreumStatus → Type 0
IsReady status = status.status ≡ "Ready"

module _ (api : Api) where
  -- What `Get` answers in a world.
  abbrev pub Observation : Type 0
  Observation = (k : Kind) → NamespacedName → Reply api.Error (Resource k)

  abbrev pub observe : api.World → Observation
  observe w k key = (api.get k key w).0

  -- No other actor changes an object during the reconciliation: reading, the clock, random numbers
  -- and a write of the status leave the objects as they are.
  pub record IsQuiet : Type 0 where
    pub get_quiet :
        (k : Kind) (key : NamespacedName) (w : api.World) → observe (api.get k key w).1 ≡ observe w
    pub now_quiet : (w : api.World) → observe (api.now w).1 ≡ observe w
    pub seed_quiet : (w : api.World) → observe (api.seed w) ≡ observe w
    pub rand_quiet : (n : ℕ) (w : api.World) → observe (api.rand_intn n w).1 ≡ observe w
    pub update_quiet : (cr : Horreum) (w : api.World) → observe (api.update_status cr w) ≡ observe w

  -- If the action ends by a value and `Ready`, then it began with `Ready`, it has changed no object,
  -- and `F` holds of the value and of the objects at the end.
  pub record IsTruthful {A : Type 0} (m : M api A) (F : A → Observation → Type 0) : Type 0 where
    pub holds :
        (s : State api) (a : A)
        → (m s).0 ≡ ok a
        → IsReady (m s).1.status
        → IsReady s.status × (observe (m s).1.world ≡ observe s.world) × F a (observe (m s).1.world)

  -- The action never ends by a value with the status `Ready`.
  abbrev pub Stops : {A : Type 0} → M api A → Type 0
  Stops m = IsTruthful m (λ _ _. ⊥)

  module _ {A : Type 0} where
    pub pure-IsTruthful : (a : A) → IsTruthful (pure a) (λ b _. b ≡ a)
    pure-IsTruthful a = record { holds = λ s b e ready. (ready, refl, cc) }

    pub raise-Stops : (e : api.Error) → Stops {A = A} (raise e)
    raise-Stops e = record { holds = λ s b h ready. cc }

    pub crash-Stops : Stops {A = A} crash
    crash-Stops = record { holds = λ s b h ready. cc }

    pub weaken-IsTruthful :
        {F G : A → Observation → Type 0} {m : M api A}
        → ((a : A) (o : Observation) → F a o → G a o)
        → IsTruthful m F
        → IsTruthful m G
    weaken-IsTruthful w h = record {
      holds = λ s a e ready. let (r, q, x) = h.holds s a e ready in (r, q, w a _ x);
    }

    pub Stops-IsTruthful : {G : A → Observation → Type 0} {m : M api A} → Stops m → IsTruthful m G
    Stops-IsTruthful h = weaken-IsTruthful (λ a o x. absurd x) h

    pub if-IsTruthful :
        {F : A → Observation → Type 0} (b : Bool) {m n : M api A}
        → (b ≡ true → IsTruthful m F)
        → (b ≡ false → IsTruthful n F)
        → IsTruthful (if b then m else n) F
    if-IsTruthful true hm hn = hm refl
    if-IsTruthful false hm hn = hn refl

  module _ {A B : Type 0} where
    pub bind-IsTruthful :
        {F : A → Observation → Type 0} {G : B → Observation → Type 0} (m : M api A)
        (f : A → M api B)
        → IsTruthful m F
        → ((a : A) → IsTruthful (f a) (λ b o. F a o → G b o))
        → IsTruthful (m >>= f) G
    bind-IsTruthful {F} {G} m f hm hf = record {
      holds = λ s b e ready.
          let (a, ma, whole) = >>=-eq-ok m f s e in
          let (r1, q1, g) = (hf a).holds (m s).1 b (rw whole at e) (rw whole at ready) in
          let (r0, q0, x) = hm.holds s a ma r1 in
          rw whole (r0, q1 ∙ q0, g (subst (F a) (sym q1) x));
    }

    -- The end of an action decides whether it stops.
    pub last-Stops :
        {G : B → Observation → Type 0} (m : M api A) (f : A → M api B)
        → ((a : A) → Stops (f a))
        → IsTruthful (m >>= f) G
    last-Stops m f hf = record {
      holds = λ s b e ready.
          let (a, ma, whole) = >>=-eq-ok m f s e in
          absurd ((hf a).holds (m s).1 b (rw whole at e) (rw whole at ready)).2;
    }

    -- What stops is not continued.
    pub first-Stops :
        {F : B → Observation → Type 0} {G : B → Observation → Type 0} (m : M api A)
        (f : A → M api B)
        → Stops m
        → ((a : A) → IsTruthful (f a) F)
        → IsTruthful (m >>= f) G
    first-Stops {F} {G} m f hm hf = record {
      holds = λ s b e ready.
          let (a, ma, whole) = >>=-eq-ok m f s e in
          let (r1, q1, g) = (hf a).holds (m s).1 b (rw whole at e) (rw whole at ready) in
          absurd (hm.holds s a ma r1).2;
    }

  -- A call that changes no object.
  pub call-IsTruthful :
      {A : Type 0} (f : api.World → A × api.World)
      → ((w : api.World) → observe (f w).1 ≡ observe w)
      → IsTruthful (call api f) (λ _ _. Unit {0})
  call-IsTruthful f quiet = record { holds = λ s a e ready. (ready, quiet s.world, tt) }

keeps_error-eq-Error :
    (old : HorreumStatus) (status : String) → keeps_error old status ≡ true → old.status ≡ "Error"
unfolding keeps_error
keeps_error-eq-Error old status h = ground (arith, eq_iff old.status "Error")

Error-ne-Ready : ◌≢◌ {A = String} "Error" "Ready"
Error-ne-Ready h = ground (arith, eq_iff "Error" "Ready")

pub Pending-ne-Ready : ◌≢◌ {A = String} "Pending" "Ready"
Pending-ne-Ready h = ground (arith, eq_iff "Pending" "Ready")

module _ (api : Api) where
  -- After a status other than `Ready` has been set, the status is not `Ready`.
  pub set_status-ne-Ready :
      (status reason : String) (s : State api)
      → status ≢ "Ready"
      → (set_status api status reason s).1.status.status ≢ "Ready"
  unfolding set_status
  set_status-ne-Ready status reason s h ready = elim (Bool-cases (keeps_error s.status status)) [
    | inl keeps ↦
        Error-ne-Ready (sym (keeps_error-eq-Error s.status status keeps) ∙ (rw keeps at ready))
    | inr sets ↦ h (rw sets at ready)
  ]

  pub set_status-Stops :
      (status reason : String) → status ≢ "Ready" → Stops api (set_status api status reason)
  set_status-Stops status reason h = record {
    holds = λ s a e ready. absurd (set_status-ne-Ready status reason s h ready);
  }

  pub update_status-Stops :
      (cr : Horreum) (status reason : String)
      → status ≢ "Ready"
      → Stops api (update_status api cr status reason)
  unfolding update_status publish
  update_status-Stops cr status reason h = record {
    holds = λ s a e ready.
        let (_, _, whole) = >>=-eq-ok (set_status api status reason) (λ _. publish api cr) s e in
        absurd (set_status-ne-Ready status reason s h (rw whole at ready));
  }
