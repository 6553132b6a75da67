-- ===== src/Base/Bits.antt =====
-- Exclusive or at variables: halving goes through it, so the bits above both operands stay clear.
use Prim.Native.Nat.{
  ℕ, zero, suc, ◌/◌, ◌%◌, ◌^◌, ◌≤◌, ◌<◌, bit_xor, digits, differ, bit_xor-bitwise,
}
use mathlib.Core.Path.{◌≡◌, refl, sym, ap, ◌∙◌}
use native.Mathlib.Nat.{div-div-eq-div-mul, mul_comm, pow-suc}
use native.Mathlib.Omega.{arith}

differ_lt_two : (x y : ℕ) → x < 2 → y < 2 → differ x y < 2
differ_lt_two zero y hx hy = hy
differ_lt_two (suc zero) zero hx hy = omega arith
differ_lt_two (suc zero) (suc y) hx hy = omega arith
differ_lt_two (suc (suc x)) y hx hy = absurd (omega arith)

abbrev xor_digits : ℕ → ℕ → ℕ → ℕ
xor_digits n a b = digits (λ c. c) differ n a b

-- Any bound of the first operand serves as the count of digits.
xor_digits_fuel : (n m a b : ℕ) → a ≤ n → a ≤ m → xor_digits n a b ≡ xor_digits m a b
xor_digits_fuel zero zero a b p q = refl
xor_digits_fuel zero (suc m) zero b p q = refl
xor_digits_fuel zero (suc m) (suc a) b p q = absurd (omega arith)
xor_digits_fuel (suc n) zero zero b p q = refl
xor_digits_fuel (suc n) zero (suc a) b p q = absurd (omega arith)
xor_digits_fuel (suc n) (suc m) zero b p q = refl
xor_digits_fuel (suc n) (suc m) (suc a) b p q =
    omega (arith, xor_digits_fuel n m (suc a / 2) (b / 2) (omega arith) (omega arith))

pub bit_xor-half : (a b : ℕ) → bit_xor a b / 2 ≡ bit_xor (a / 2) (b / 2)
bit_xor-half zero b = omega (arith, bit_xor-bitwise 0 b, bit_xor-bitwise 0 (b / 2))
bit_xor-half (suc a) b = omega (
  arith,
  bit_xor-bitwise (suc a) b,
  bit_xor-bitwise (suc a / 2) (b / 2),
  xor_digits_fuel a (suc a / 2) (suc a / 2) (b / 2) (omega arith) (omega arith),
  differ_lt_two (suc a % 2) (b % 2) (omega arith) (omega arith),
)

div_one : (x : ℕ) → x / 2 ^ 0 ≡ x
div_one x = omega arith

div_two_pow : (k x : ℕ) → x / 2 ^ suc k ≡ x / 2 / 2 ^ k
div_two_pow k x =
    ap (◌/◌ x) (pow-suc 2 k ∙ mul_comm (2 ^ k) 2) ∙ sym (div-div-eq-div-mul x 2 (2 ^ k))

pub bit_xor-shift : (k a b : ℕ) → bit_xor a b / 2 ^ k ≡ bit_xor (a / 2 ^ k) (b / 2 ^ k)
bit_xor-shift zero a b = rw (div_one (bit_xor a b), div_one a, div_one b)
bit_xor-shift (suc k) a b =
    rw (div_two_pow k (bit_xor a b), div_two_pow k a, div_two_pow k b, bit_xor-half a b)
      (bit_xor-shift k (a / 2) (b / 2))
