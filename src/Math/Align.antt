-- ===== src/Math/Align.antt =====
-- What the alignment functions compute, which take the negative of a 32-bit alignment.
use native.Mathlib.Nat.{
  pow-suc, one-le-pow, div-add-mod, div-add-mod', mod-lt, mod-le, mul-suc, add-mul-mod_self_left,
  add-suc, suc-mul, mul-lt-mul_of_pos_right, add-mul-mod_self_right, mod-eq_of_lt,
}
use mathlib.Core.Path.{ap₂}
use tcengine.Base.{
  ℕ, zero, suc, ◌+◌, ◌-◌, ◌*◌, ◌/◌, ◌%◌, ◌^◌, ◌≤◌, ◌<◌, ◌≡◌, sym, ap, ◌∙◌, arith, ℕ_discrete,
}
use tcengine.Base.{bit_and, bit_and_shifted, bit_and_mask, ◌==◌, if◌then◌else◌}
use tcengine.Math.{u32, align_down, align_up, round_up}

zero_right : (n : ℕ) → n + 0 ≡ n
zero_right n = omega arith

pub split : (n k : ℕ) → 2 ^ (n + k) ≡ 2 ^ n * 2 ^ k
split n zero = omega (arith, ap (λ t. 2 ^ t) (zero_right n))
split n (suc k) = omega (
  arith,
  pow-suc 2 (n + k),
  split n k,
  ap (λ (t : ℕ). 2 ^ n * t) (pow-suc 2 k),
  ap (λ t. 2 ^ t) (add-suc n k),
)

pred_mul : (a b : ℕ) → 0 < a → (a - 1) * b + b ≡ a * b
pred_mul zero b h = absurd (omega arith)
pred_mul (suc a) b h =
    let less : suc a - 1 ≡ a = omega arith in rw less (omega (arith, suc-mul a b))

-- The mask is 2^n - 1, moved by k, where n + k is 32.
mask : (n k : ℕ) → 2 ^ n * 2 ^ k ≡ 2 ^ 32 → u32 (2 ^ 32 - 2 ^ k) ≡ (2 ^ n - 1) * 2 ^ k
mask n k h =
    omega (
      arith,
      one-le-pow n 2,
      one-le-pow k 2,
      pred_mul (2 ^ n) (2 ^ k) (one-le-pow n 2 (omega arith)),
    )

-- A multiple of 2^k, up to a larger power of two.
below : (r a b : ℕ) → 0 < b → r < a → r * b < a * b
below r a b h i = mul-lt-mul_of_pos_right i h

parts : (q a b : ℕ) → q % a * b + q / a * (a * b) ≡ q * b
parts q a b = omega (arith, ap (λ (t : ℕ). t * b) (div-add-mod q a))

low_part : (q a b : ℕ) → 0 < b → 0 < a → q % a * b ≡ (q * b) % (a * b)
low_part q a b h i =
    sym (mod-eq_of_lt {n = q % a * b} {m = a * b} (below (q % a) a b h (mod-lt q i)))
    ∙ sym (add-mul-mod_self_right (q % a * b) (q / a) (a * b))
    ∙ ap (λ t. t % (a * b)) (parts q a b)

pub masked :
    (n k x : ℕ)
    → 2 ^ n * 2 ^ k ≡ 2 ^ 32
    → bit_and x (u32 (2 ^ 32 - 2 ^ k)) ≡ (x - x % 2 ^ k) % 2 ^ 32
masked n k x h =
    let whole : x / 2 ^ k * 2 ^ k ≡ x - x % 2 ^ k = omega (arith, div-add-mod' x (2 ^ k)) in
    ap (bit_and x) (mask n k h)
    ∙ bit_and_shifted k x (2 ^ n - 1)
    ∙ ap (λ t. t * 2 ^ k) (bit_and_mask n (x / 2 ^ k))
    ∙ low_part (x / 2 ^ k) (2 ^ n) (2 ^ k) (one-le-pow k 2 (omega arith))
        (one-le-pow n 2 (omega arith))
    ∙ ap₂ (λ t u. t % u) whole h

-- The multiple of `a` at or above `v` is the one at or below `v + (a - 1)`.
remainder_above : (v a : ℕ) → 0 < a → (v + (a - 1)) % a ≡ (if v % a == 0 then a - 1 else v % a - 1)
remainder_above v a h = elim (ℕ_discrete (v % a) 0) [
  | yes e ↦
      ap (λ t. t % a) (omega (arith, div-add-mod v a))
      ∙ add-mul-mod_self_left (a - 1) a (v / a)
      ∙ mod-eq_of_lt (omega arith)
      ∙ ground arith
  | no n ↦
      ap (λ t. t % a) (omega (arith, div-add-mod v a, mul-suc a (v / a)))
      ∙ add-mul-mod_self_left (v % a - 1) a (suc (v / a))
      ∙ mod-eq_of_lt (omega (arith, mod-lt v h))
      ∙ ground arith
]

upwards : (v a : ℕ) → 0 < a → v + a ≤ 2 ^ 64 → v + (a - 1) - (v + (a - 1)) % a ≡ round_up v a
unfolding round_up
upwards v a h fits = ground (
  arith,
  remainder_above v a h,
  mod-lt v h,
  mod-le v a,
  mod-eq_of_lt {n = v + a - v % a} {m = 2 ^ 64},
)

-- With an alignment of 2^k, k at most 31, align_down takes the remainder off and align_up gives
-- what round_up gives, and both keep the low 32 bits only, where the value and its alignment
-- together are at most 2^64.
pub align-round_up :
    (k val : ℕ)
    → k ≤ 31
    → val + 2 ^ k ≤ 2 ^ 64
    → (align_down val (2 ^ k) ≡ (val - val % 2 ^ k) % 2 ^ 32)
      × (align_up val (2 ^ k) ≡ round_up val (2 ^ k) % 2 ^ 32)
unfolding align_down align_up round_up
align-round_up k val h fits =
    let room : 32 - k + k ≡ 32 = omega arith in
    let whole : 2 ^ (32 - k) * 2 ^ k ≡ 2 ^ 32 = sym (split (32 - k) k) ∙ ap (λ t. 2 ^ t) room in
    (
      masked (32 - k) k val whole,
      ap (λ t. bit_and t (u32 (2 ^ 32 - 2 ^ k))) (mod-eq_of_lt (omega (arith, one-le-pow k 2)))
          ∙ masked (32 - k) k (val + (2 ^ k - 1)) whole
          ∙ ap (λ t. t % 2 ^ 32) (upwards val (2 ^ k) (one-le-pow k 2 (omega arith)) fits),
    )
