-- ===== src/Scope/Rules.antt =====
-- Actions that run by the steps of `Scope`, whatever they end by: one rule for each way to build one.
use horreum_operator.Common.{String, ◌≡◌, refl, ◌⊎◌, inl, inr, Bool, true, false, if◌then◌else◌}
use horreum_operator.Crd.{Horreum}
use horreum_operator.Cluster.{
  Api, State, M, Outcome-cases, ok, call, pure, raise, crash, ◌>>=◌, ◌>>◌,
}
use horreum_operator.Status.{set_status, publish, update_status}
use horreum_operator.Status.{next_status}
use horreum_operator.Status.Sticky.{written, set_status_lem}
use horreum_operator.Certs.{Crypto}
use horreum_operator.Scope.{Reads, Steps, Steps-trans, here, next, read, sent, told, faulted, waits}

module _ (api : Api) (crypto : Crypto api) (cr : Horreum) where
  -- From every state the action runs by steps, and what it returns satisfies `P`.
  pub record IsConfined {A : Type 0} (m : M api A) (P : A → Type 0) : Type 0 where
    pub runs : (s : State api) → Steps api crypto cr s (m s).1
    pub returns : (s : State api) (a : A) → (m s).0 ≡ ok a → P a

  module _ {A : Type 0} where
    pub pure-IsConfined : (P : A → Type 0) (a : A) → P a → IsConfined (pure a) P
    pure-IsConfined P a h = record { runs = λ s. here; returns = λ s b e. moved b cc }
      where
        moved : (b : A) → a ≡ b → P b
        moved b e = rw e at h

    pub raise-IsConfined : {P : A → Type 0} (e : api.Error) → IsConfined (raise e) P
    raise-IsConfined e = record { runs = λ s. here; returns = λ s b h. cc }

    pub crash-IsConfined : {P : A → Type 0} → IsConfined crash P
    crash-IsConfined = record { runs = λ s. here; returns = λ s b h. cc }

    pub weaken-IsConfined :
        {P Q : A → Type 0} {m : M api A} → ((a : A) → P a → Q a) → IsConfined m P → IsConfined m Q
    weaken-IsConfined w h = record { runs = h.runs; returns = λ s a e. w a (h.returns s a e) }

    pub if-IsConfined :
        {P : A → Type 0} (b : Bool) {m n : M api A}
        → (b ≡ true → IsConfined m P)
        → (b ≡ false → IsConfined n P)
        → IsConfined (if b then m else n) P
    if-IsConfined true hm hn = hm refl
    if-IsConfined false hm hn = hn refl

  module _ {A B : Type 0} where
    pub bind-IsConfined :
        (P : A → Type 0) {Q : B → Type 0} (m : M api A) (f : A → M api B)
        → IsConfined m P
        → ((a : A) → P a → IsConfined (f a) Q)
        → IsConfined (m >>= f) Q
    bind-IsConfined P m f hm hf = record {
      runs = λ s. elim (Outcome-cases (m s).0) [
        | inl (a, e) ↦
            rw (e, ◌>>=◌)
              (Steps-trans api crypto cr (hm.runs s) ((hf a (hm.returns s a e)).runs (m s).1))
        | inr (inl (x, e)) ↦ rw (e, ◌>>=◌) (hm.runs s)
        | inr (inr e) ↦ rw (e, ◌>>=◌) (hm.runs s)
      ];
      returns = λ s b h. elim (Outcome-cases (m s).0) [
        | inl (a, e) ↦ (hf a (hm.returns s a e)).returns (m s).1 b (rw (e, ◌>>=◌) at h)
        | inr (inl (x, e)) ↦ cc (rw (e, ◌>>=◌) at h)
        | inr (inr e) ↦ cc (rw (e, ◌>>=◌) at h)
      ];
    }

  -- Nothing is said of the value.
  abbrev pub Confined : {A : Type 0} → M api A → Type 0
  Confined m = IsConfined m (λ _. Unit {0})

  module _ {A B : Type 0} where
    pub then-IsConfined :
        {Q : B → Type 0} (m : M api A) (f : A → M api B)
        → Confined m
        → ((a : A) → IsConfined (f a) Q)
        → IsConfined (m >>= f) Q
    then-IsConfined m f hm hf = bind-IsConfined (λ _. Unit {0}) m f hm (λ a _. hf a)

  pub pure-Confined : {A : Type 0} (a : A) → Confined (pure a)
  pure-Confined a = pure-IsConfined (λ _. Unit {0}) a tt

  pub call-IsConfined :
      {A : Type 0} (f : api.World → A × api.World)
      → ((w : api.World) → Reads api crypto w (f w).1)
      → IsConfined (call api f) (λ a. (w : api.World) × ((f w).0 ≡ a))
  call-IsConfined f h = record {
    runs = λ s. next here (read s (f s.world).1 (h s.world));
    returns = λ s a e. (s.world, cc e);
  }

  written-Steps :
      (status reason : String) (s : State api)
      → (status ≡ "Error") ⊎ (status ≡ "Pending")
      → ¬ ((s.status.status ≡ "Error") × (status ≡ "Pending"))
      → Steps api crypto cr s (written api status reason s)
  unfolding next_status
  written-Steps status reason s h n =
      let (time, w) = api.now s.world in
      let looked = next here (read s w (told s.world)) in
      elim h [
        | inl e ↦ rw e (next looked (faulted (record s { world = w }) reason time))
        | inr p ↦ rw p (next looked (waits (record s { world = w }) reason time (λ q. n (q, p))))
      ]

  pub set_status-Confined :
      (status reason : String)
      → (status ≡ "Error") ⊎ (status ≡ "Pending")
      → Confined (set_status api status reason)
  set_status-Confined status reason h = record {
    runs = λ s. elim (set_status_lem api status reason s) [
      | inl (_, _, e) ↦ rw e here
      | inr (n, e) ↦ rw e (written-Steps status reason s h n)
    ];
    returns = λ s a e. tt;
  }

  pub publish-Confined : Confined (publish api cr)
  unfolding publish
  publish-Confined = record { runs = λ s. next here (sent s); returns = λ s a e. tt }

  pub update_status-Confined :
      (status reason : String)
      → (status ≡ "Error") ⊎ (status ≡ "Pending")
      → Confined (update_status api cr status reason)
  unfolding update_status
  update_status-Confined status reason h =
      then-IsConfined (set_status api status reason) _ (set_status-Confined status reason h)
        (λ _. publish-Confined)

  pub report_error-Confined :
      {A : Type 0} (reason : String) (x : api.Error)
      → Confined {A = A} (update_status api cr "Error" reason >> raise x)
  report_error-Confined reason x =
      then-IsConfined (update_status api cr "Error" reason) (λ _. raise x)
        (update_status-Confined "Error" reason (inl refl)) (λ _. raise-IsConfined x)
