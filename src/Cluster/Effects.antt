-- ===== src/Cluster/Effects.antt =====
-- Results as Go returns them, and actions that end by a value, an error or a panic.
use horreum_operator.Common.{ap, sym, ◌∙◌, ◌≡◌, refl, ◌⊎◌, inl, inr}

-- A value, or a non-nil error.
pub data Reply (E A : Type 0) : Type 0 where
  found : A → Reply E A
  failed : E → Reply E A

pub data Outcome (E A : Type 0) : Type 0 where
  ok : A → Outcome E A
  err : E → Outcome E A
  panic : Outcome E A

-- The state comes back after an error too: what was written stays written.
abbrev pub Action : Type 0 → Type 0 → Type 0 → Type 0
Action S E A = S → Outcome E A × S

module _ {S E A : Type 0} where
  abbrev pub pure : A → Action S E A
  pure a s = (ok a, s)

  -- `return err`
  abbrev pub raise : E → Action S E A
  raise e s = (err e, s)

  -- A nil pointer is read, or an index is out of range.
  abbrev pub crash : Action S E A
  crash s = (panic, s)

  -- `if err != nil { return err }`
  abbrev pub from_reply : Reply E A → Action S E A
  from_reply (found a) = pure a
  from_reply (failed e) = raise e

infixl 5 ◌>>=◌ ◌>>◌
abbrev pub ◌>>=◌ : {S E A B : Type 0} → Action S E A → (A → Action S E B) → Action S E B
◌>>=◌ m f s = elim (m s).0 [
  | ok a ↦ f a (m s).1
  | err e ↦ (err e, (m s).1)
  | panic ↦ (panic, (m s).1)
]

abbrev pub ◌>>◌ : {S E A B : Type 0} → Action S E A → Action S E B → Action S E B
m >> k = m >>= λ _. k

-- To split on a computed reply and keep the equation.
pub Reply-cases :
    {E A : Type 0} (r : Reply E A) → ((a : A) × (r ≡ found a)) ⊎ ((e : E) × (r ≡ failed e))
Reply-cases (found a) = inl (a, refl)
Reply-cases (failed e) = inr (e, refl)

pub Outcome-cases :
    {E A : Type 0} (o : Outcome E A)
    → ((a : A) × (o ≡ ok a)) ⊎ ((e : E) × (o ≡ err e)) ⊎ (o ≡ panic)
Outcome-cases (ok a) = inl (a, refl)
Outcome-cases (err e) = inr (inl (e, refl))
Outcome-cases panic = inr (inr refl)

-- Inversion of an action that ends by a value.
pub >>=-eq-ok :
    {S E A B : Type 0} (m : Action S E A) (f : A → Action S E B) (s : S) {b : B}
    → ((m >>= f) s).0 ≡ ok b
    → (a : A) × ((m s).0 ≡ ok a) × ((m >>= f) s ≡ f a (m s).1)
>>=-eq-ok m f s h = elim (Outcome-cases (m s).0) [
  | inl (a, e) ↦ (a, e, rw (e, ◌>>=◌))
  | inr (inl (x, e)) ↦ cc (rw (e, ◌>>=◌) at h)
  | inr (inr e) ↦ cc (rw (e, ◌>>=◌) at h)
]

-- What follows an action that ends by a value.
pub >>=-of-ok :
    {S E A B : Type 0} (m : Action S E A) (f : A → Action S E B) (s : S) {a : A}
    → (m s).0 ≡ ok a
    → (m >>= f) s ≡ f a (m s).1
>>=-of-ok m f s e = rw (e, ◌>>=◌)

-- An action that ends by a value, and what is then put in place of the rest.
pub >>-instead :
    {S E A B C : Type 0} (m : Action S E A) (n : Action S E B) (n' : Action S E C) (s : S) {b : B}
    {t : S} {u : Outcome E C × S}
    → (m >> n) s ≡ (ok b, t)
    → ((s' : S) → n s' ≡ (ok b, t) → n' s' ≡ u)
    → (m >> n') s ≡ u
>>-instead m n n' s e h =
    let (a, first, whole) = >>=-eq-ok m (λ _. n) s (ap (λ p. p.0) e) in
    >>=-of-ok m (λ _. n') s first ∙ h (m s).1 (sym whole ∙ e)
