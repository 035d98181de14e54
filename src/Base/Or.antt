-- ===== src/Base/Or.antt =====
-- The bitwise or of machine words, digit by digit.
use Prim.Native.Nat.{ℕ, zero, suc, ◌+◌, ◌*◌, ◌/◌, ◌%◌, ◌≤◌, max}
use Prim.Native.Nat.{bit_or, digits, bit_or-bitwise}
use mathlib.Core.Path.{◌≡◌, refl}
use native.Mathlib.Omega.{arith}

abbrev either_bits : ℕ → ℕ → ℕ → ℕ
either_bits fuel a b = digits (λ b. b) max fuel a b

-- The digit recursion does not depend on its fuel once that reaches the first argument.
either_bits_enough : (f g a b : ℕ) → a ≤ f → a ≤ g → either_bits f a b ≡ either_bits g a b
either_bits_enough zero zero a b p q = refl
either_bits_enough zero (suc g) zero b p q = refl
either_bits_enough zero (suc g) (suc a) b p q = absurd (omega arith)
either_bits_enough (suc f) zero zero b p q = refl
either_bits_enough (suc f) zero (suc a) b p q = absurd (omega arith)
either_bits_enough (suc f) (suc g) zero b p q = refl
either_bits_enough (suc f) (suc g) (suc a) b p q =
    omega (arith, either_bits_enough f g (suc a / 2) (b / 2) (omega arith) (omega arith))

pub bit_or_low : (a b : ℕ) → bit_or a b ≡ bit_or (a / 2) (b / 2) * 2 + max (a % 2) (b % 2)
bit_or_low zero b = omega (arith, bit_or-bitwise 0 b, bit_or-bitwise 0 (b / 2))
bit_or_low (suc a) b = omega (
  arith,
  bit_or-bitwise (suc a) b,
  bit_or-bitwise (suc a / 2) (b / 2),
  either_bits_enough a (suc a / 2) (suc a / 2) (b / 2) (omega arith) (omega arith),
)
