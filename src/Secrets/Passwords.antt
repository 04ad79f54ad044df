-- ===== src/Secrets/Passwords.antt =====
-- The passwords and the secrets that are made.
use Prim.Native.Char.{Char}
use Prim.Native.String.{String}
use horreum_operator.Common.{
  ℕ, zero, suc, ◌<◌, ◌≡◌, refl, none, some, List, [], ◌∷◌, length, get_elem?, All, lookup, arith,
  string_eq, ap,
}
use horreum_operator.Objects.{
  Secret, key_of, empty_secret, empty_meta, secret_type_basic_auth, basic_auth_username_key,
  basic_auth_password_key,
}
use horreum_operator.Crd.{Horreum}
use horreum_operator.Cluster.{Api, State, M, ok, call, pure, crash}
use horreum_operator.Cluster.Returns.{Returns, pure-Returns, bind-Returns}
use horreum_operator.Secrets.{chars, fill, generate_password, new_secret}

-- `rand.Intn(n)` lies below n.
abbrev pub IsBounded : Api → Type 0
IsBounded api = (n : ℕ) (w : api.World) → 0 < n → (api.rand_intn n w).0 < n

abbrev pub pack : List Char → String
pack [] = ""
pack (c ∷ cs) = String.◌∷◌ c (pack cs)

-- The character is one of the alphabet.
abbrev pub IsAllowed : Char → Type 0
IsAllowed c = (i : ℕ) × (get_elem? chars i ≡ some c)

-- So many characters of the alphabet.
abbrev pub IsPassword : ℕ → String → Type 0
IsPassword n p = (cs : List Char) × (length cs ≡ n) × All IsAllowed cs × (p ≡ pack cs)

pub get_elem?-in_range :
    {A : Type 0} (xs : List A) (i : ℕ) → i < length xs → (x : A) × (get_elem? xs i ≡ some x)
get_elem?-in_range [] i h = absurd (omega arith)
get_elem?-in_range (x ∷ xs) zero h = (x, refl)
get_elem?-in_range (x ∷ xs) (suc i) h = get_elem?-in_range xs i (omega arith)

module _ (api : Api) (bounded : IsBounded api) where
  abbrev pick : ℕ → M api Char
  pick i = elim (get_elem? chars i) [ some c ↦ pure c | none ↦ crash ]

  pick-Returns : (i : ℕ) → i < length chars → Returns (pick i) IsAllowed
  pick-Returns i h =
      let (c, e) = get_elem?-in_range chars i h in record { returned = λ s. (c, rw e refl, (i, e)) }

  rand-Returns : Returns (call api (api.rand_intn (length chars))) (λ i. i < length chars)
  rand-Returns = record {
    returned = λ s. (
      (api.rand_intn (length chars) s.world).0,
      refl,
      bounded (length chars) s.world (omega arith),
    );
  }

  fill-Returns : (n : ℕ) → Returns (fill api n) (IsPassword n)
  unfolding fill
  fill-Returns zero = pure-Returns "" ([], refl, tt, refl)
  fill-Returns (suc n) = bind-Returns _ _ rand-Returns (λ i h.
      bind-Returns (pick i) _ (pick-Returns i h) (λ c allowed.
        bind-Returns _ _ (fill-Returns n) (λ rest (cs, len, all, e).
          pure-Returns (String.◌∷◌ c rest)
            (c ∷ cs, ap suc len, (allowed, all), ap (String.◌∷◌ c) e))))

  generate_password-Returns : Returns (generate_password api) (IsPassword 16)
  unfolding generate_password
  generate_password-Returns =
      bind-Returns {P = λ _. Unit {0}} _ _ (record { returned = λ s. (tt, refl, tt) })
        (λ _ _. fill-Returns 16)

  -- The secret of this name for the custom resource.
  pub record IsUserSecret (cr : Horreum) (name : String) (s : Secret) : Type 0 where
    pub key : key_of s.metadata ≡ record { namespace = cr.metadata.namespace; name = name }
    pub type : s.type ≡ secret_type_basic_auth
    pub user : lookup basic_auth_username_key s.string_data ≡ some name
    pub password : String
    pub generated : IsPassword 16 password
    pub held : lookup basic_auth_password_key s.string_data ≡ some password

  abbrev made : Horreum → String → String → Secret
  made cr name password = record empty_secret {
    metadata = record empty_meta { name = name; namespace = cr.metadata.namespace };
    type = secret_type_basic_auth;
    string_data = (basic_auth_username_key, name) ∷ (basic_auth_password_key, password) ∷ [];
  }

  new_secret-Returns :
      (cr : Horreum) (name : String) → Returns (new_secret api cr name) (IsUserSecret cr name)
  unfolding new_secret
  new_secret-Returns cr name =
      bind-Returns _ (λ p. pure (made cr name p)) generate_password-Returns
        (λ p h. pure-Returns (made cr name p) (record {
          key = refl;
          type = refl;
          user = refl;
          password = p;
          generated = h;
          held = refl;
        }))

-- If the random numbers lie below their bound, a password is made from every state, without a
-- panic: sixteen characters of the alphabet.
pub generate_password-IsPassword :
    (api : Api)
    → IsBounded api
    → (s : State api) → (p : String) × ((generate_password api s).0 ≡ ok p) × IsPassword 16 p
generate_password-IsPassword api bounded s = (generate_password-Returns api bounded).returned s

-- If the random numbers lie below their bound, a secret is made from every state, with the given
-- name in the namespace of the custom resource: it is of the type for basic authentication, and holds
-- its own name as the user and a password of sixteen characters of the alphabet.
pub new_secret-IsUserSecret :
    (api : Api) (bounded : IsBounded api) (cr : Horreum) (name : String) (s : State api)
    → (secret : Secret) × ((new_secret api cr name s).0 ≡ ok secret)
      × IsUserSecret api bounded cr name secret
new_secret-IsUserSecret api bounded cr name s = (new_secret-Returns api bounded cr name).returned s
