-- ===== src/Steady.antt =====
-- Actions on a cluster that is as it should be: they end by a value, change no object, and leave the
-- status `Ready`.
pub mod Ensure
pub mod Values
pub mod Routing
pub mod Exposed
pub mod Certified
pub mod Phases
pub mod Settled
pub mod Request
use horreum_operator.Common.{
  ℕ, String, ◌≡◌, refl, ◌∙◌, ap, Bool, true, false, Option, none, some, if◌then◌else◌,
}
use horreum_operator.Cluster.{Api, State, M, Outcome, ok, call, pure, >>=-of-ok, ◌>>=◌, ◌>>◌}
use horreum_operator.Cluster.Returns.{Returns}
use horreum_operator.Status.Truthful.{Observation, observe, IsReady}

module _ (api : Api) (o : Observation api) where
  -- From every state in which the objects are those of `o` and the status is `Ready`.
  pub record IsSteady {A : Type 0} (m : M api A) (P : A → Type 0) : Type 0 where
    pub stays :
        (s : State api)
        → observe api s.world ≡ o
        → IsReady s.status
        → (a : A) × ((m s).0 ≡ ok a)
          × P a
          × (observe api (m s).1.world ≡ o)
          × IsReady (m s).1.status

  module _ {A : Type 0} where
    pub pure-IsSteady : (P : A → Type 0) (a : A) → P a → IsSteady (pure a) P
    pure-IsSteady P a h = record { stays = λ s seen ready. (a, refl, h, seen, ready) }

    pub weaken-IsSteady :
        {P Q : A → Type 0} {m : M api A} → ((a : A) → P a → Q a) → IsSteady m P → IsSteady m Q
    weaken-IsSteady w h = record {
      stays = λ s seen ready.
          let (a, e, p, seen', ready') = h.stays s seen ready in (a, e, w a p, seen', ready');
    }

    pub then-IsSteady :
        {P : A → Type 0} (b : Bool) (m n : M api A)
        → b ≡ true
        → IsSteady m P
        → IsSteady (if b then m else n) P
    then-IsSteady b m n e h = rw e h

    pub else-IsSteady :
        {P : A → Type 0} (b : Bool) (m n : M api A)
        → b ≡ false
        → IsSteady n P
        → IsSteady (if b then m else n) P
    else-IsSteady b m n e h = rw e h

  pub bind-IsSteady :
      {A B : Type 0} (P : A → Type 0) {Q : B → Type 0} (m : M api A) (f : A → M api B)
      → IsSteady m P
      → ((a : A) → P a → IsSteady (f a) Q)
      → IsSteady (m >>= f) Q
  bind-IsSteady P m f hm hf = record {
    stays = λ s seen ready.
        let (a, e, p, seen', ready') = hm.stays s seen ready in
        rw (>>=-of-ok m f s e) ((hf a p).stays (m s).1 seen' ready');
  }

  abbrev pub Steady : {A : Type 0} → M api A → Type 0
  Steady m = IsSteady m (λ _. Unit {0})

  -- The first action is followed whatever it returns.
  pub after-IsSteady :
      {A B : Type 0} {Q : B → Type 0} (m : M api A) (f : A → M api B)
      → Steady m
      → ((a : A) → IsSteady (f a) Q)
      → IsSteady (m >>= f) Q
  after-IsSteady m f hm hf = bind-IsSteady (λ _. Unit {0}) m f hm (λ a _. hf a)

  pub call-IsSteady :
      {A : Type 0} (f : api.World → A × api.World)
      → ((w : api.World) → observe api (f w).1 ≡ observe api w)
      → IsSteady (call api f) (λ a. (w : api.World) × (observe api w ≡ o) × ((f w).0 ≡ a))
  call-IsSteady f quiet = record {
    stays =
        λ s seen ready. ((f s.world).0, refl, (s.world, seen, refl), quiet s.world ∙ seen, ready);
  }
