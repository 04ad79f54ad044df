-- ===== src/Cluster/Yields.antt =====
-- What holds of every value that an action can end by, from any state.
use horreum_operator.Common.{◌≡◌, refl, Bool, true, false, if◌then◌else◌}
use horreum_operator.Cluster.Effects.{Action, ok, pure, raise, crash, ◌>>=◌, >>=-eq-ok}

pub record Yields {S E A : Type 0} (m : Action S E A) (P : A → Type 0) : Type 0 where
  pub holds : (s : S) (a : A) → (m s).0 ≡ ok a → P a

module _ {S E A : Type 0} {P : A → Type 0} where
  pub pure-Yields : (a : A) → P a → Yields {S = S} {E = E} (pure a) P
  pure-Yields a h = record { holds = λ s b e. moved a b h cc }
    where
      moved : (a b : A) → P a → a ≡ b → P b
      moved a b h e = rw e at h

  pub raise-Yields : (e : E) → Yields {S = S} (raise e) P
  raise-Yields e = record { holds = λ s b h. cc }

  pub crash-Yields : Yields {S = S} {E = E} crash P
  crash-Yields = record { holds = λ s b h. cc }

  pub if-Yields :
      (b : Bool) {m n : Action S E A}
      → (b ≡ true → Yields m P)
      → (b ≡ false → Yields n P)
      → Yields (if b then m else n) P
  if-Yields true hm hn = hm refl
  if-Yields false hm hn = hn refl

module _ {S E A B : Type 0} where
  pub bind-Yields :
      {P : A → Type 0} {Q : B → Type 0} (m : Action S E A) (f : A → Action S E B)
      → Yields m P
      → ((a : A) → P a → Yields (f a) Q)
      → Yields (m >>= f) Q
  bind-Yields m f hm hf = record {
    holds = λ s b e.
        let (a, ma, whole) = >>=-eq-ok m f s e in
        (hf a (hm.holds s a ma)).holds (m s).1 b (rw whole at e);
  }

  -- The end of an action alone may decide its values.
  pub last-Yields :
      {Q : B → Type 0} (m : Action S E A) (f : A → Action S E B)
      → ((a : A) → Yields (f a) Q)
      → Yields (m >>= f) Q
  last-Yields m f hf = bind-Yields m f (record { holds = λ s a e. tt {0} }) (λ a _. hf a)
