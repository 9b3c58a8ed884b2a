-- ===== src/Base/Xor.antt =====
-- C's `^` on bytes: applying the same mask twice gives the byte back, at every width.
use Prim.Native.Nat.{ℕ, zero, suc, ◌+◌, ◌*◌, ◌/◌, ◌%◌, ◌≤◌, ◌<◌, bit_xor, digits, differ}
use Prim.Native.Nat.{bit_xor-bitwise}
use mathlib.Core.Path.{◌≡◌, refl}
use native.Mathlib.Omega.{arith}

abbrev xor_digits : ℕ → ℕ → ℕ → ℕ
xor_digits n a b = digits (λ c. c) differ n a b

-- Any count of digits that covers `a` gives the same result.
xor_digits_enough : (n m a b : ℕ) → a ≤ n → a ≤ m → xor_digits n a b ≡ xor_digits m a b
xor_digits_enough zero zero zero b p q = refl
xor_digits_enough zero zero (suc a) b p q = absurd (omega arith)
xor_digits_enough zero (suc m) zero b p q = refl
xor_digits_enough zero (suc m) (suc a) b p q = absurd (omega arith)
xor_digits_enough (suc n) zero zero b p q = refl
xor_digits_enough (suc n) zero (suc a) b p q = absurd (omega arith)
xor_digits_enough (suc n) (suc m) zero b p q = refl
xor_digits_enough (suc n) (suc m) (suc a) b p q =
    rw (xor_digits_enough n m (suc a / 2) (b / 2) (omega arith) (omega arith))

zero-bit_xor : (b : ℕ) → bit_xor 0 b ≡ b
zero-bit_xor b = bit_xor-bitwise 0 b

differ-digit : (x y : ℕ) → x < 2 → y < 2 → differ x y < 2
differ-digit zero y p q = q
differ-digit (suc x) zero p q = p
differ-digit (suc zero) (suc zero) p q = omega arith
differ-digit (suc (suc x)) (suc y) p q = absurd (omega arith)
differ-digit (suc zero) (suc (suc y)) p q = absurd (omega arith)

differ_twice : (x y : ℕ) → x < 2 → y < 2 → differ (differ x y) y ≡ x
differ_twice zero zero p q = refl
differ_twice zero (suc zero) p q = refl
differ_twice zero (suc (suc y)) p q = absurd (omega arith)
differ_twice (suc x) zero p q = refl
differ_twice (suc zero) (suc zero) p q = refl
differ_twice (suc (suc x)) (suc y) p q = absurd (omega arith)
differ_twice (suc zero) (suc (suc y)) p q = absurd (omega arith)

-- The lowest digit of an exclusive or.
bit_xor_step : (a b : ℕ) → bit_xor a b ≡ bit_xor (a / 2) (b / 2) * 2 + differ (a % 2) (b % 2)
bit_xor_step zero b = omega (arith, zero-bit_xor b, zero-bit_xor (b / 2))
bit_xor_step (suc a) b = omega (
  arith,
  bit_xor-bitwise (suc a) b,
  bit_xor-bitwise (suc a / 2) (b / 2),
  xor_digits_enough a (suc a / 2) (suc a / 2) (b / 2) (omega arith) (omega arith),
)

-- The halves and the digit of an exclusive or, for the induction.
bit_xor-half : (a b : ℕ) → bit_xor a b / 2 ≡ bit_xor (a / 2) (b / 2)
bit_xor-half a b =
    omega (arith, bit_xor_step a b, differ-digit (a % 2) (b % 2) (omega arith) (omega arith))

bit_xor-digit : (a b : ℕ) → bit_xor a b % 2 ≡ differ (a % 2) (b % 2)
bit_xor-digit a b =
    omega (arith, bit_xor_step a b, differ-digit (a % 2) (b % 2) (omega arith) (omega arith))

bit_xor_twice_below : (n a b : ℕ) → a ≤ n → b ≤ n → bit_xor (bit_xor a b) b ≡ a
bit_xor_twice_below n zero zero p q = refl
bit_xor_twice_below zero (suc a) b p q = absurd (omega arith)
bit_xor_twice_below zero zero (suc b) p q = absurd (omega arith)
bit_xor_twice_below (suc n) a b p q =
    rw
      (
        bit_xor_step (bit_xor a b) b,
        bit_xor-half a b,
        bit_xor-digit a b,
        bit_xor_twice_below n (a / 2) (b / 2) (omega arith) (omega arith),
        differ_twice (a % 2) (b % 2) (omega arith) (omega arith),
      )
      (omega arith)

pub bit_xor_twice : (a b : ℕ) → bit_xor (bit_xor a b) b ≡ a
bit_xor_twice a b = bit_xor_twice_below (a + b) a b (omega arith) (omega arith)
