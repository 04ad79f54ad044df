-- ===== src/Secrets.antt =====
-- `generatePassword` and `newSecret` of controllers/utils.go.
pub mod Passwords
use Prim.Native.Char.{Char}
use Prim.Native.String.{String}
use horreum_operator.Common.{ℕ, zero, suc, Option, none, some, List, [], ◌∷◌, length, get_elem?}
use horreum_operator.Objects.{
  Secret, empty_meta, empty_secret, secret_type_basic_auth, basic_auth_username_key,
  basic_auth_password_key,
}
use horreum_operator.Crd.{Horreum}
use horreum_operator.Cluster.{Api, M, call, call_unit, pure, crash, ◌>>=◌, ◌>>◌}

-- The upper-case letters, the lower-case letters and the digits.
abbrev pub chars : List Char
chars =
    "A" ∷ "B" ∷ "C" ∷ "D" ∷ "E" ∷ "F" ∷ "G" ∷ "H" ∷ "I" ∷ "J" ∷ "K" ∷ "L" ∷ "M" ∷ "N" ∷ "O" ∷ "P"
    ∷ "Q" ∷ "R" ∷ "S" ∷ "T" ∷ "U" ∷ "V" ∷ "W" ∷ "X" ∷ "Y" ∷ "Z" ∷ "a" ∷ "b" ∷ "c" ∷ "d" ∷ "e" ∷ "f"
    ∷ "g" ∷ "h" ∷ "i" ∷ "j" ∷ "k" ∷ "l" ∷ "m" ∷ "n" ∷ "o" ∷ "p" ∷ "q" ∷ "r" ∷ "s" ∷ "t" ∷ "u" ∷ "v"
    ∷ "w" ∷ "x" ∷ "y" ∷ "z" ∷ "0" ∷ "1" ∷ "2" ∷ "3" ∷ "4" ∷ "5" ∷ "6" ∷ "7" ∷ "8" ∷ "9" ∷ []

-- The keys of every secret that `newSecret` makes.
abbrev pub user_keys : List String
user_keys = basic_auth_username_key ∷ basic_auth_password_key ∷ []

module _ (api : Api) where
  -- The loop over the buffer: so many more characters.
  unfoldable pub fill : ℕ → M api String
  fill zero = pure ""
  fill (suc n) = do
    i ← call api (api.rand_intn (length chars))
    c ← elim (get_elem? chars i) [ some c ↦ pure c | none ↦ crash ]
    rest ← fill n
    pure (String.◌∷◌ c rest)

  unfoldable pub generate_password : M api String
  unfolding fill
  generate_password = do call_unit api api.seed; fill 16

  unfoldable pub new_secret : Horreum → String → M api Secret
  unfolding generate_password
  new_secret cr name = do
    password ← generate_password
    pure (record empty_secret {
      metadata = record empty_meta { name = name; namespace = cr.metadata.namespace };
      type = secret_type_basic_auth;
      string_data = (basic_auth_username_key, name) ∷ (basic_auth_password_key, password) ∷ [];
    })
