-- ===== src/Base/Mask.antt =====
-- C's `&` with a mask of one bit: it gives that bit of a number.
use Prim.Native.Nat.{ℕ, zero, suc, ◌*◌, ◌/◌, ◌%◌, ◌≤◌, min, bit_and, digits, bit_and-bitwise}
use mathlib.Core.Path.{◌≡◌, refl, ◌∙◌}
use native.Mathlib.Omega.{arith}

-- The digits of a number of at most `n` digits that a mask keeps.
abbrev masked : ℕ → ℕ → ℕ → ℕ
masked n a mask = digits (λ rest. zero) min n a mask

masked_none : (n a : ℕ) → masked n a 0 ≡ 0
masked_none zero a = refl
masked_none (suc n) zero = refl
masked_none (suc n) (suc a) = omega (arith, masked_none n (suc a / 2))

masked_one : (n a : ℕ) → a ≤ n → masked n a 1 ≡ a % 2
masked_one zero a h = omega arith
masked_one (suc n) zero h = refl
masked_one (suc n) (suc a) h = omega (arith, masked_none n (suc a / 2))

masked_two : (n a : ℕ) → a ≤ n → masked n a 2 ≡ a / 2 % 2 * 2
masked_two zero a h = omega arith
masked_two (suc n) zero h = refl
masked_two (suc n) (suc a) h = omega (arith, masked_one n (suc a / 2) (omega arith))

masked_four : (n a : ℕ) → a ≤ n → masked n a 4 ≡ a / 4 % 2 * 4
masked_four zero a h = omega arith
masked_four (suc n) zero h = refl
masked_four (suc n) (suc a) h = omega (arith, masked_two n (suc a / 2) (omega arith))

masked_eight : (n a : ℕ) → a ≤ n → masked n a 8 ≡ a / 8 % 2 * 8
masked_eight zero a h = omega arith
masked_eight (suc n) zero h = refl
masked_eight (suc n) (suc a) h = omega (arith, masked_four n (suc a / 2) (omega arith))

pub bit_and-one : (a : ℕ) → bit_and a 1 ≡ a % 2
bit_and-one a = bit_and-bitwise a 1 ∙ masked_one a a (omega arith)

pub bit_and-two : (a : ℕ) → bit_and a 2 ≡ a / 2 % 2 * 2
bit_and-two a = bit_and-bitwise a 2 ∙ masked_two a a (omega arith)

pub bit_and-four : (a : ℕ) → bit_and a 4 ≡ a / 4 % 2 * 4
bit_and-four a = bit_and-bitwise a 4 ∙ masked_four a a (omega arith)

pub bit_and-eight : (a : ℕ) → bit_and a 8 ≡ a / 8 % 2 * 8
bit_and-eight a = bit_and-bitwise a 8 ∙ masked_eight a a (omega arith)
