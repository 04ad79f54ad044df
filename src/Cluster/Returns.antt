-- ===== src/Cluster/Returns.antt =====
-- Actions that end by a value from every state, and what holds of the value.
use horreum_operator.Common.{◌≡◌, refl}
use horreum_operator.Cluster.Effects.{Action, ok, pure, ◌>>=◌}

pub record Returns {S E A : Type 0} (m : Action S E A) (P : A → Type 0) : Type 0 where
  pub returned : (s : S) → (a : A) × ((m s).0 ≡ ok a) × P a

module _ {S E : Type 0} where
  pub pure-Returns :
      {A : Type 0} {P : A → Type 0} (a : A) → P a → Returns {S = S} {E = E} (pure a) P
  pure-Returns a h = record { returned = λ s. (a, refl, h) }

  pub bind-Returns :
      {A B : Type 0} {P : A → Type 0} {Q : B → Type 0} (m : Action S E A) (f : A → Action S E B)
      → Returns m P
      → ((a : A) → P a → Returns (f a) Q)
      → Returns (m >>= f) Q
  bind-Returns m f hm hf = record {
    returned = λ s.
        let (a, e, p) = hm.returned s in
        let (b, g, q) = (hf a p).returned (m s).1 in (b, rw (e, ◌>>=◌) g, q);
  }
