-- ===== src/Common/Int.antt =====
-- Go's signed integers (`int32`, `int64`), which the operator compares and prints in decimal.
use Prim.Native.Nat.{ℕ, zero, suc, ◌+◌, ◌*◌, ◌/◌, ◌%◌, ◌<◌, compare, Ordering}
use Prim.Native.String.{String, ◌++◌ as ◌<>◌}
use mathlib.Core.Path.{◌≡◌, refl}
use mathlib.Core.Logic.{◌↔◌}
use mathlib.Core.Bool.{Bool, true, false}
use mathlib.Core.List.{List, [], ◌∷◌, foldl}
use native.Mathlib.Omega.{arith}
use horreum_operator.Common.Equality.{Comparable}

-- `negsuc n` is -(n + 1).
pub data ℤ : Type 0 where
  pos : ℕ → ℤ
  negsuc : ℕ → ℤ

abbrev pub nat_beq : ℕ → ℕ → Bool
nat_beq a b = elim (compare a b) [ Ordering.eq ↦ true | _ ↦ false ]

pub nat_beq_iff : (a b : ℕ) → (nat_beq a b ≡ true) ↔ (a ≡ b)
nat_beq_iff a b = ground arith

abbrev int_beq : ℤ → ℤ → Bool
int_beq (pos m) (pos n) = nat_beq m n
int_beq (negsuc m) (negsuc n) = nat_beq m n
int_beq _ _ = false

pub int_beq_iff : (a b : ℤ) → (int_beq a b ≡ true) ↔ (a ≡ b)
int_beq_iff (pos m) (pos n) = ground arith
int_beq_iff (pos m) (negsuc n) = ground arith
int_beq_iff (negsuc m) (pos n) = ground arith
int_beq_iff (negsuc m) (negsuc n) = ground arith

instance abbrev pub int_eq : Comparable ℤ
int_eq = record { equal = int_beq; decides = λ {x} {y}. int_beq_iff x y }

abbrev digit : ℕ → String
digit zero = "0"
digit (suc zero) = "1"
digit (suc (suc zero)) = "2"
digit (suc (suc (suc zero))) = "3"
digit (suc (suc (suc (suc zero)))) = "4"
digit (suc (suc (suc (suc (suc zero))))) = "5"
digit (suc (suc (suc (suc (suc (suc zero)))))) = "6"
digit (suc (suc (suc (suc (suc (suc (suc zero))))))) = "7"
digit (suc (suc (suc (suc (suc (suc (suc (suc zero)))))))) = "8"
digit _ = "9"

-- The decimal digits of a number, the last one first. One round more than the number is enough.
digits_from : ℕ → ℕ → List ℕ
digits_from zero n = []
digits_from (suc f) zero = []
digits_from (suc f) (suc n) = (suc n % 10) ∷ digits_from f (suc n / 10)

value : List ℕ → ℕ
value [] = 0
value (d ∷ ds) = d + 10 * value ds

-- The digits stand for the number: the fuel never runs out.
value-digits_from : (f n : ℕ) → n < f → value (digits_from f n) ≡ n
unfolding value digits_from
value-digits_from zero n h = elim h [ ]
value-digits_from (suc f) zero h = refl
value-digits_from (suc f) (suc n) h = omega (arith, value-digits_from f (suc n / 10) (omega arith))

decimal : ℕ → String
unfolding digits_from
decimal zero = "0"
decimal (suc n) = foldl (λ acc d. digit d <> acc) "" (digits_from (suc (suc n)) (suc n))

-- `strconv.Itoa`, and `%d` of `fmt`
unfoldable pub itoa : ℤ → String
unfolding decimal
itoa (pos n) = decimal n
itoa (negsuc n) = "-" <> decimal (suc n)

itoa_tests : (itoa (pos 5432) ≡ "5432") × (itoa (pos 0) ≡ "0") × (itoa (negsuc 41) ≡ "-42")
unfolding itoa
itoa_tests = (refl, refl, refl)
