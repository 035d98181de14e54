-- ===== src/Math/Smear.antt =====
-- `x |= x >> 1` and so on fill a number with ones, from its highest one down.
use Prim.Native.Nat.{max}
use native.Mathlib.Nat.{div-div-eq-div-mul, pow-suc, zero-div, zero-mod, one-le-pow, div-add-mod}
use mathlib.Core.Path.{ap₂}
use tcengine.Base.{ℕ, zero, suc, ◌+◌, ◌*◌, ◌/◌, ◌%◌, ◌^◌, ◌<◌, ◌≡◌, refl, sym, ap, ◌∙◌, arith}
use tcengine.Base.{bit_or, bit_or_low, ◌==◌, if◌then◌else◌}
use tcengine.Math.{or_shifted}

halved : (x k : ℕ) → x / 2 ^ suc k ≡ x / 2 / 2 ^ k
halved x k = ap (λ t. x / t) (omega (arith, pow-suc 2 k)) ∙ sym (div-div-eq-div-mul x 2 (2 ^ k))

-- Bit `j` of `trail f p x` is 1 where `x / 2^j` is no multiple of `p`, for the `f` lowest bits.
unfoldable pub trail : (f p x : ℕ) → ℕ
trail zero p x = 0
trail (suc f) p x = trail f p (x / 2) * 2 + (if x % p == 0 then 0 else 1)

-- Of a 32-bit number, `f` is at most 32.
trail-bit :
    (f k p x : ℕ)
    → x < 2 ^ f
    → 0 < p
    → (trail f p x / 2 ^ k) % 2 ≡ (if (x / 2 ^ k) % p == 0 then 0 else 1)
unfolding trail
trail-bit zero k p x h pos =
    let none_left : x ≡ 0 = omega arith in rw (none_left, zero-div (2 ^ k), zero-mod p) refl
trail-bit (suc f) zero p x h pos = ground arith
trail-bit (suc f) (suc k) p x h pos =
    let rest : trail (suc f) p x / 2 ≡ trail f p (x / 2) = ground arith in
    ap (λ t. t % 2) (halved (trail (suc f) p x) k ∙ ap (λ t. t / 2 ^ k) rest)
    ∙ trail-bit f k p (x / 2) (omega (arith, pow-suc 2 f)) pos
    ∙ ap (λ (t : ℕ). if t % p == 0 then 0 else 1) (sym (halved x k))

mod-square : (x p : ℕ) → x % (p * p) ≡ p * ((x / p) % p) + x % p
mod-square x p = omega (
  arith,
  div-add-mod x (p * p),
  ap (λ (t : ℕ). p * p * t) (div-div-eq-div-mul x p p),
  div-add-mod x p,
  ap (λ (t : ℕ). p * t) (div-add-mod (x / p) p),
)

positive : (p r : ℕ) → 0 < p → 0 < r → 0 < p * r
positive p zero h k = absurd (omega arith)
positive p (suc r) h k = omega arith

abbrev bit_of : ℕ → ℕ
bit_of r = if r == 0 then 0 else 1

bit_of-square :
    (x p : ℕ) → 0 < p → max (bit_of (x % p)) (bit_of ((x / p) % p)) ≡ bit_of (x % (p * p))
bit_of-square x p pos = rw (mod-square x p) (ground (arith, positive p ((x / p) % p)))

-- Two such numbers, the second one shifted by 2^k, give the next one.
pub or-trail :
    (f k x : ℕ) → x < 2 ^ f → or_shifted (2 ^ k) (trail f (2 ^ k) x) ≡ trail f (2 ^ k * 2 ^ k) x
unfolding trail
or-trail zero k x h = rw (zero-div (2 ^ k)) refl
or-trail (suc f) k x h =
    let p : ℕ = 2 ^ k in
    let t : ℕ = trail (suc f) p x in
    let rest : t / 2 ≡ trail f p (x / 2) = ground arith in
    let low : t % 2 ≡ bit_of (x % p) = ground arith in
    let swap : t / p / 2 ≡ t / 2 / p =
      div-div-eq-div-mul t p 2 ∙ ap (λ y. t / y) (sym (pow-suc 2 k)) ∙ halved t k in
    let high : bit_or (t / 2) (t / p / 2) ≡ trail f (p * p) (x / 2) =
      ap (bit_or (t / 2)) swap
      ∙ ap (λ y. bit_or y (y / p)) rest
      ∙ or-trail f k (x / 2) (omega (arith, pow-suc 2 f)) in
    bit_or_low t (t / p)
    ∙ ap₂ (λ y z. y * 2 + z) high
        (ap₂ max low (trail-bit (suc f) k p x h (one-le-pow k 2 (omega arith)))
          ∙ bit_of-square x p (one-le-pow k 2 (omega arith)))
