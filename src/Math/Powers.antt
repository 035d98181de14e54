-- ===== src/Math/Powers.antt =====
-- What the functions on powers of two compute, for every 32-bit number.
use native.Mathlib.Nat.{pow-suc, mod-eq_of_lt, one-le-pow, pow-le-pow_right}
use tcengine.Base.{
  ℕ, zero, suc, ◌-◌, ◌*◌, ◌/◌, ◌^◌, ◌≤◌, ◌<◌, ◌≡◌, refl, sym, ap, ◌∙◌, arith, dec_lt,
}
use tcengine.Base.{Bool, true, ◌&&◌, ◌==◌, ==_iff, get_or}
use tcengine.Math.{
  or_shifted, smear, u32, log2_32, log2_tab32, next_power_of_2, previous_power_of_2,
}
use tcengine.Math.Smear.{trail, or-trail}

trail_self : (f x : ℕ) → x < 2 ^ f → trail f 2 x ≡ x
unfolding trail
trail_self zero x h = omega arith
trail_self (suc f) x h = ground (arith, trail_self f (x / 2) (omega (arith, pow-suc 2 f)))

smear-trail : (x : ℕ) → x < 2 ^ 32 → smear x ≡ trail 32 0x100000000 x
unfolding smear
smear-trail x h =
    let e1 : or_shifted 2 x ≡ trail 32 4 x =
      ap (or_shifted 2) (sym (trail_self 32 x h)) ∙ or-trail 32 1 x h in
    let e2 : or_shifted 4 (or_shifted 2 x) ≡ trail 32 16 x =
      ap (or_shifted 4) e1 ∙ or-trail 32 2 x h in
    let e4 : or_shifted 16 (or_shifted 4 (or_shifted 2 x)) ≡ trail 32 256 x =
      ap (or_shifted 16) e2 ∙ or-trail 32 4 x h in
    ap (λ y. or_shifted 65536 (or_shifted 256 y)) e4
    ∙ ap (or_shifted 65536) (or-trail 32 8 x h)
    ∙ or-trail 32 16 x h

trail-zero : (f p : ℕ) → 0 < p → trail f p 0 ≡ 0
unfolding trail
trail-zero zero p h = refl
trail-zero (suc f) p h = ground (arith, trail-zero f p h)

-- Below `p`, all the bits up to the highest one are filled.
trail-filled :
    (k f p x : ℕ) → x < 2 ^ f → x < p → 2 ^ k ≤ x → x < 2 ^ suc k → trail f p x ≡ 2 ^ suc k - 1
unfolding trail
trail-filled k zero p x h below low high = absurd (omega (arith, one-le-pow k 2))
trail-filled zero (suc f) p x h below low high =
    let one : x ≡ 1 = omega arith in
    rw one
      (ground (arith, mod-eq_of_lt {n = 1} {m = p} (omega arith), trail-zero f p (omega arith)))
trail-filled (suc k) (suc f) p x h below low high = ground (
  arith,
  pow-suc 2 k,
  pow-suc 2 (suc k),
  pow-suc 2 f,
  one-le-pow k 2,
  mod-eq_of_lt {n = x} {m = p} below,
  trail-filled k f p (x / 2),
)

pub smear-filled : (k x : ℕ) → x < 2 ^ 32 → 2 ^ k ≤ x → x < 2 ^ suc k → smear x ≡ 2 ^ suc k - 1
smear-filled k x h low high =
    smear-trail x h ∙ trail-filled k 32 0x100000000 x h (omega arith) low high

-- Every positive number stands between two powers of two.
highest : (n x : ℕ) → x ≤ n → 0 < x → (k : ℕ) × (2 ^ k ≤ x) × x < 2 ^ suc k
highest zero x h pos = absurd (omega arith)
highest (suc n) zero h pos = absurd (omega arith)
highest (suc n) (suc zero) h pos = (0, omega arith, omega arith)
highest (suc n) (suc (suc y)) h pos =
    let (k, low, high) = highest n (suc (suc y) / 2) (omega arith) (omega arith) in
    (suc k, omega (arith, pow-suc 2 k), omega (arith, pow-suc 2 (suc k)))

-- A power of two below another one has the smaller exponent.
exponent_le : (i j : ℕ) → 2 ^ i < 2 ^ suc j → i ≤ j
exponent_le i j h = elim (dec_lt j i) [
  | yes p ↦ absurd (omega (arith, pow-le-pow_right {n = 2} (omega arith) {i = suc j} {j = i} p))
  | no p ↦ omega arith
]

at_most_32 : (k : ℕ) → 2 ^ k < 2 ^ 32 → k ≤ 31
at_most_32 k h = exponent_le k 31 h

next-between : (k x : ℕ) → 2 ^ k < x → x ≤ 2 ^ suc k → x ≤ 2 ^ 31 → next_power_of_2 x ≡ 2 ^ suc k
unfolding next_power_of_2
next-between k x low high h =
    let filled : smear (x - 1) ≡ 2 ^ suc k - 1 =
      smear-filled k (x - 1) (omega arith) (omega arith) (omega arith) in
    let fits : 2 ^ suc k ≤ 2 ^ 31 =
      pow-le-pow_right {n = 2} (omega arith) {i = suc k} {j = 31}
        (omega (arith, exponent_le k 30 (omega arith))) in
    ground (arith, filled)

one_next : next_power_of_2 1 ≡ 1
unfolding next_power_of_2 smear
one_next = refl

pub below_exponent : (k j : ℕ) → 2 ^ k < 2 ^ j → suc k ≤ j
below_exponent k j h = elim (dec_lt k j) [
  | yes p ↦ p
  | no p ↦
      absurd (omega (arith, pow-le-pow_right {n = 2} (omega arith) {i = j} {j = k} (omega arith)))
]

-- What next_power_of_2 gives is a power of two, not below the number, and every other such power
-- of two is at least as large, for numbers from 1 to 2^31.
pub next_power_of_2_lem :
    (x : ℕ)
    → 0 < x
    → x ≤ 2 ^ 31
    → ((k : ℕ) × next_power_of_2 x ≡ 2 ^ k)
      × (x ≤ next_power_of_2 x)
      × ((j : ℕ) → x ≤ 2 ^ j → next_power_of_2 x ≤ 2 ^ j)
next_power_of_2_lem zero pos h = absurd (omega arith)
next_power_of_2_lem (suc zero) pos h =
    ((0, one_next), omega (arith, one_next), λ j k. omega (arith, one_next))
next_power_of_2_lem (suc (suc y)) pos h =
    let (k, low, high) = highest (suc y) (suc y) (omega arith) (omega arith) in
    let value : next_power_of_2 (suc (suc y)) ≡ 2 ^ suc k =
      next-between k (suc (suc y)) (omega arith) (omega arith) h in
    (
      (suc k, value),
      omega (arith, value),
      λ j above. omega (
        arith,
        value,
        pow-le-pow_right {n = 2} (omega arith) {i = suc k} {j = j}
            (below_exponent k j (omega arith)),
      ),
    )

-- The table at the top five bits of the product.
logs_right : ℕ → Bool
logs_right zero = true
logs_right (suc k) =
    (get_or log2_tab32 (u32 ((2 ^ suc k - 1) * 0x07c4acdd) / 2 ^ 27) 0 == k) && logs_right k

logs_right-all : logs_right 32 ≡ true
unfolding logs_right
logs_right-all = refl

logs_right-at :
    (n k : ℕ)
    → k < n
    → logs_right n ≡ true
    → get_or log2_tab32 (u32 ((2 ^ suc k - 1) * 0x07c4acdd) / 2 ^ 27) 0 ≡ k
unfolding logs_right
logs_right-at zero k h e = absurd (omega arith)
logs_right-at (suc n) k h e = elim (dec_lt k n) [
  | yes p ↦ logs_right-at n k p (ground arith)
  | no p ↦
      let same : k ≡ n = omega arith in
      rw same (
        ground
          (arith, ==_iff (get_or log2_tab32 (u32 ((2 ^ suc n - 1) * 0x07c4acdd) / 2 ^ 27) 0) n))
]

-- For every positive 32-bit number, previous_power_of_2 is 2 to the number that log2_32 finds in
-- its table, and the number stands between this power of two and the next one.
pub log2_32-previous_power_of_2 :
    (x : ℕ)
    → 0 < x
    → x < 2 ^ 32
    → (previous_power_of_2 x ≡ 2 ^ log2_32 x) × (2 ^ log2_32 x ≤ x) × x < 2 ^ suc (log2_32 x)
unfolding previous_power_of_2 log2_32
log2_32-previous_power_of_2 x pos h =
    let (k, low, high) = highest x x (omega arith) pos in
    let filled : smear x ≡ 2 ^ suc k - 1 = smear-filled k x h low high in
    let log : log2_32 x ≡ k =
      ap (λ t. get_or log2_tab32 (u32 (t * 0x07c4acdd) / 2 ^ 27) 0) filled
      ∙ logs_right-at 32 k (omega (arith, exponent_le k 31 (omega arith))) logs_right-all in
    rw log (omega (arith, filled, pow-suc 2 k), low, high)
