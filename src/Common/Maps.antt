-- ===== src/Common/Maps.antt =====
-- Association lists with distinct keys, as maps.
use horreum_operator.Common.{
  suc, String, ◌≡◌, refl, sym, ap, ◌∙◌, ◌↔◌, inl, inr, false, none, some, [], ◌∷◌, Dict, lookup,
  All, length, ◌==◌, if◌then◌else◌, string_eq, eq_iff, arith, String-cases,
}

-- No key is there twice.
abbrev pub HasDistinctKeys : {V : Type 0} → Dict String V → Type 0
HasDistinctKeys [] = Unit
HasDistinctKeys ((key, v) ∷ m) = (lookup key m ≡ none) × HasDistinctKeys m

-- Every entry of the first map is found in the second.
abbrev pub Sub : {V : Type 0} → Dict String V → Dict String V → Type 0
Sub m1 m2 = All (λ (key, v). lookup key m2 ≡ some v) m1

-- `delete(m, key)`
abbrev pub erase : {V : Type 0} → String → Dict String V → Dict String V
erase key [] = []
erase key ((j, v) ∷ m) = let rest = erase key m in if key == j then m else (j, v) ∷ rest

module _ {V : Type 0} where
  lookup-head : (key : String) (v : V) (m : Dict String V) → lookup key ((key, v) ∷ m) ≡ some v
  lookup-head key v m = rw ((eq_iff key key).1 refl) refl

  lookup-tail :
      (key j : String) (v : V) (m : Dict String V)
      → (key == j) ≡ false
      → lookup key ((j, v) ∷ m) ≡ lookup key m
  lookup-tail key j v m e = rw e refl

  lookup-erase :
      (key j : String) (m : Dict String V)
      → (j == key) ≡ false
      → lookup j (erase key m) ≡ lookup j m
  lookup-erase key j [] e = refl
  lookup-erase key j ((i, v) ∷ m) e = elim (String-cases key i) [
    | inl same ↦ rw ((eq_iff key i).1 same, erase) (sym (lookup-tail j i v m (rw same at e)))
    | inr differs ↦ elim (String-cases j i) [
      | inl same ↦ rw (differs, (eq_iff j i).1 same) refl
      | inr other ↦ rw (differs, other) (lookup-erase key j m e)
    ]
  ]

  lookup-erase_same :
      (key : String) (m : Dict String V) → HasDistinctKeys m → lookup key (erase key m) ≡ none
  lookup-erase_same key [] h = refl
  lookup-erase_same key ((i, v) ∷ m) (fresh, h) = elim (String-cases key i) [
    | inl same ↦ rw ((eq_iff key i).1 same) (rw (sym same) at fresh)
    | inr differs ↦ rw differs (rw differs (lookup-erase_same key m h))
  ]

  length-erase :
      (key : String) (v : V) (m : Dict String V)
      → lookup key m ≡ some v
      → length m ≡ suc (length (erase key m))
  length-erase key v [] h = cc
  length-erase key v ((i, w) ∷ m) h = elim (String-cases key i) [
    | inl same ↦ rw ((eq_iff key i).1 same) refl
    | inr differs ↦ rw differs (ap suc (length-erase key v m (rw differs at h)))
  ]

  erase-HasDistinctKeys :
      (key : String) (m : Dict String V) → HasDistinctKeys m → HasDistinctKeys (erase key m)
  erase-HasDistinctKeys key [] h = tt
  erase-HasDistinctKeys key ((i, v) ∷ m) (fresh, h) = elim (String-cases key i) [
    | inl same ↦ rw ((eq_iff key i).1 same) h
    | inr differs ↦
        rw differs (lookup-erase key i m (other differs) ∙ fresh, erase-HasDistinctKeys key m h)
  ]
    where
      other : (key == i) ≡ false → (i == key) ≡ false
      other e = ground (arith, e, eq_iff key i, eq_iff i key)

  -- The same keys with the same values.
  abbrev pub IsSameMap : Dict String V → Dict String V → Type 0
  IsSameMap m1 m2 = (key : String) → lookup key m1 ≡ lookup key m2

  weaken-Sub :
      (key : String) (m m2 : Dict String V) → HasDistinctKeys m2 → Sub m (erase key m2) → Sub m m2
  weaken-Sub key [] m2 h sub = tt
  weaken-Sub key ((j, v) ∷ m) m2 h (there, sub) = (
    elim (String-cases j key) [
      | inl same ↦
          cc (sym there ∙ ap (λ x. lookup x (erase key m2)) same ∙ lookup-erase_same key m2 h)
      | inr differs ↦ sym (lookup-erase key j m2 differs) ∙ there
    ],
    weaken-Sub key m m2 h sub,
  )

  narrow-Sub :
      (key : String) (m m2 : Dict String V) → lookup key m ≡ none → Sub m m2 → Sub m (erase key m2)
  narrow-Sub key [] m2 fresh sub = tt
  narrow-Sub key ((j, v) ∷ m) m2 fresh (there, sub) = elim (String-cases key j) [
    | inl same ↦ cc (rw ((eq_iff key j).1 same) at fresh)
    | inr differs ↦ (
      lookup-erase key j m2 (ground (arith, differs, eq_iff key j, eq_iff j key)) ∙ there,
      narrow-Sub key m m2 (rw differs at fresh) sub,
    )
  ]

  IsSameMap-of-Sub :
      (m1 m2 : Dict String V)
      → HasDistinctKeys m1
      → HasDistinctKeys m2
      → length m1 ≡ length m2
      → Sub m1 m2
      → IsSameMap m1 m2
  IsSameMap-of-Sub [] [] h1 h2 e sub key = refl
  IsSameMap-of-Sub [] (x ∷ m2) h1 h2 e sub key = absurd (omega arith)
  IsSameMap-of-Sub ((k, v) ∷ m1) m2 (fresh, h1) h2 e (there, sub) key =
      let shorter : length m1 ≡ length (erase k m2) =
        let counted = length-erase k v m2 there in omega arith in
      let rest =
        IsSameMap-of-Sub m1 (erase k m2) h1 (erase-HasDistinctKeys k m2 h2) shorter
          (narrow-Sub k m1 m2 fresh sub) key in
      elim (String-cases key k) [
        | inl same ↦ rw (same, (eq_iff k k).1 refl) (sym there)
        | inr differs ↦ rw differs (rest ∙ lookup-erase k key m2 differs)
      ]

  Sub-of-IsSameMap :
      (m1 m2 : Dict String V)
      → HasDistinctKeys m1
      → HasDistinctKeys m2
      → IsSameMap m1 m2
      → (length m1 ≡ length m2) × Sub m1 m2
  Sub-of-IsSameMap [] [] h1 h2 same = (refl, tt)
  Sub-of-IsSameMap [] ((k, v) ∷ m2) h1 h2 same = cc (same k ∙ lookup-head k v m2)
  Sub-of-IsSameMap ((k, v) ∷ m1) m2 (fresh, h1) h2 same =
      let there : lookup k m2 ≡ some v = sym (same k) ∙ lookup-head k v m1 in
      let (shorter, sub) =
        Sub-of-IsSameMap m1 (erase k m2) h1 (erase-HasDistinctKeys k m2 h2) rest in
      (ap suc shorter ∙ sym (length-erase k v m2 there), (there, weaken-Sub k m1 m2 h2 sub))
    where
      rest : (key : String) → lookup key m1 ≡ lookup key (erase k m2)
      rest key = elim (String-cases key k) [
        | inl e ↦ rw e (fresh ∙ sym (lookup-erase_same k m2 h2))
        | inr differs ↦
            sym (lookup-tail key k v m1 differs) ∙ same key ∙ sym (lookup-erase k key m2 differs)
      ]

  -- With distinct keys, as many entries and inclusion make the same map.
  pub Sub-iff-IsSameMap :
      (m1 m2 : Dict String V)
      → HasDistinctKeys m1
      → HasDistinctKeys m2
      → ((length m1 ≡ length m2) × Sub m1 m2) ↔ IsSameMap m1 m2
  Sub-iff-IsSameMap m1 m2 h1 h2 =
      (λ (e, sub). IsSameMap-of-Sub m1 m2 h1 h2 e sub, Sub-of-IsSameMap m1 m2 h1 h2)
