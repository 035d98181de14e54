-- ===== src/Base/Bits.antt =====
-- Bitwise operations of machine words as arithmetic: a mask of low bits is a remainder.
use Prim.Native.Nat.{ℕ, zero, suc, ◌+◌, ◌-◌, ◌*◌, ◌/◌, ◌%◌, ◌^◌, ◌≤◌, ◌<◌, min}
use Prim.Native.Nat.{bit_and, digits, bit_and-bitwise}
use mathlib.Core.Path.{◌≡◌, refl, ap, ◌∙◌}
use native.Mathlib.Nat.{pow-suc, one-le-pow, div-div-eq-div-mul}
use native.Mathlib.Omega.{arith}

abbrev both_bits : ℕ → ℕ → ℕ → ℕ
both_bits fuel a b = digits (λ _. zero) min fuel a b

-- The digit recursion does not depend on its fuel once that reaches the first argument.
both_bits_enough : (f g a b : ℕ) → a ≤ f → a ≤ g → both_bits f a b ≡ both_bits g a b
both_bits_enough zero zero a b p q = refl
both_bits_enough zero (suc g) zero b p q = refl
both_bits_enough zero (suc g) (suc a) b p q = absurd (omega arith)
both_bits_enough (suc f) zero zero b p q = refl
both_bits_enough (suc f) zero (suc a) b p q = absurd (omega arith)
both_bits_enough (suc f) (suc g) zero b p q = refl
both_bits_enough (suc f) (suc g) (suc a) b p q =
    omega (arith, both_bits_enough f g (suc a / 2) (b / 2) (omega arith) (omega arith))

bit_and_low : (a b : ℕ) → bit_and a b ≡ bit_and (a / 2) (b / 2) * 2 + min (a % 2) (b % 2)
bit_and_low zero b = omega (arith, bit_and-bitwise 0 b, bit_and-bitwise 0 (b / 2))
bit_and_low (suc a) b = omega (
  arith,
  bit_and-bitwise (suc a) b,
  bit_and-bitwise (suc a / 2) (b / 2),
  both_bits_enough a (suc a / 2) (suc a / 2) (b / 2) (omega arith) (omega arith),
)

bit_and-zero_below : (n a : ℕ) → a ≤ n → bit_and a 0 ≡ 0
bit_and-zero_below n zero h = refl
bit_and-zero_below zero (suc a) h = absurd (omega arith)
bit_and-zero_below (suc n) (suc a) h =
    omega (arith, bit_and_low (suc a) 0, bit_and-zero_below n (suc a / 2) (omega arith))

pub bit_and-zero : (a : ℕ) → bit_and a 0 ≡ 0
bit_and-zero a = bit_and-zero_below a a (omega arith)

scale : (q k : ℕ) → q * 2 ^ suc k ≡ 2 * (q * 2 ^ k)
scale q k = omega (arith, ap (λ (t : ℕ). q * t) (pow-suc 2 k))

mask_of_sum : (k q r : ℕ) → r < 2 ^ k → bit_and (q * 2 ^ k + r) (2 ^ k - 1) ≡ r
mask_of_sum zero q r h = let e : r ≡ 0 = omega arith in omega (arith, bit_and-zero (q * 2 ^ 0 + r))
mask_of_sum (suc k) q r h = ground (
  arith,
  bit_and_low (q * 2 ^ suc k + r) (2 ^ suc k - 1),
  scale q k,
  pow-suc 2 k,
  one-le-pow k 2,
  mask_of_sum k q (r / 2) (omega (arith, pow-suc 2 k)),
)

-- `a & (2^k - 1)` is `a % 2^k`.
pub bit_and_mask : (k a : ℕ) → bit_and a (2 ^ k - 1) ≡ a % 2 ^ k
bit_and_mask k a = ground (arith, one-le-pow k 2, mask_of_sum k (a / 2 ^ k) (a % 2 ^ k))

div-pow-suc : (x k : ℕ) → x / 2 / 2 ^ k ≡ x / 2 ^ suc k
div-pow-suc x k = div-div-eq-div-mul x 2 (2 ^ k) ∙ ap (λ t. x / t) (omega (arith, pow-suc 2 k))

mul-two_div : (n : ℕ) → n * 2 / 2 ≡ n
mul-two_div n = omega arith

-- A mask that ends in `k` zeros.
pub bit_and_shifted : (k x m : ℕ) → bit_and x (m * 2 ^ k) ≡ bit_and (x / 2 ^ k) m * 2 ^ k
bit_and_shifted zero x m =
    let all : m * 2 ^ zero ≡ m = omega arith in
    let whole : x / 2 ^ zero ≡ x = omega arith in rw (all, whole) (omega arith)
bit_and_shifted (suc k) x m =
    let halves : m * 2 ^ suc k ≡ m * 2 ^ k * 2 = omega (arith, scale m k) in
    let rest : bit_and (x / 2) (m * 2 ^ k) ≡ bit_and (x / 2 ^ suc k) m * 2 ^ k =
      bit_and_shifted k (x / 2) m ∙ ap (λ t. bit_and t m * 2 ^ k) (div-pow-suc x k) in
    ap (bit_and x) halves
    ∙ bit_and_low x (m * 2 ^ k * 2)
    ∙ omega (
      arith,
      ap (bit_and (x / 2)) (mul-two_div (m * 2 ^ k)),
      rest,
      scale (bit_and (x / 2 ^ suc k) m) k,
    )
