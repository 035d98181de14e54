-- ===== src/Memory/Buddy/Levels.antt =====
-- Which level a size belongs to, where the buffer and the smallest block are powers of two.
use native.Mathlib.Nat.{pow-suc, one-le-pow, pow-le-pow_right, mul-div_cancel}
use tcengine.Base.{
  ℕ, zero, suc, ◌+◌, ◌-◌, ◌*◌, ◌/◌, ◌^◌, ◌≤◌, ◌<◌, max, ◌≡◌, ◌⊎◌, inl, inr, refl, sym, ap, ◌∙◌,
  arith, dec_lt,
}
use tcengine.Base.{if-true, if-false}
use tcengine.Math.{u32, next_power_of_2, log2_32}
use tcengine.Math.Powers.{next_power_of_2_lem, log2_32-previous_power_of_2, below_exponent}
use tcengine.Math.Align.{split}
use tcengine.Memory.Buddy.{Buddy, levels_of, with_levels, size_at_level, level_at_size}

exponent_le : (i j : ℕ) → 2 ^ i ≤ 2 ^ j → i ≤ j
exponent_le i j h = elim (dec_lt j i) [
  | yes p ↦ absurd (
      omega (
        arith,
        pow-suc 2 j,
        one-le-pow j 2,
        pow-le-pow_right {n = 2} (omega arith) {i = suc j} {j = i} p,
      ))
  | no p ↦ omega arith
]

add_back : (i j : ℕ) → j ≤ i → i - j + j ≡ i
add_back i j h = omega arith

power-div : (i j : ℕ) → j ≤ i → 2 ^ i / 2 ^ j ≡ 2 ^ (i - j)
power-div i j h =
    ap (λ (t : ℕ). t / 2 ^ j) (ap (λ k. 2 ^ k) (sym (add_back i j h)) ∙ split (i - j) j)
    ∙ mul-div_cancel (2 ^ (i - j)) (one-le-pow j 2 (omega arith))

small_power : (i : ℕ) → i ≤ 31 → 2 ^ i ≤ 2 ^ 31
small_power i h = pow-le-pow_right {n = 2} (omega arith) {i = i} {j = 31} h

word : (n : ℕ) → n ≤ 2 ^ 31 → u32 n ≡ n
word n h = omega arith

pub log2_32-power : (m : ℕ) → m ≤ 31 → log2_32 (2 ^ m) ≡ m
log2_32-power m h =
    let (_, low, high) =
      log2_32-previous_power_of_2 (2 ^ m) (one-le-pow m 2 (omega arith))
        (omega (arith, small_power m h)) in
    omega
      (arith, exponent_le (log2_32 (2 ^ m)) m low, below_exponent m (suc (log2_32 (2 ^ m))) high)

pub size_at_level-power :
    (c l : ℕ) (ba : Buddy) → ba.cap ≡ 2 ^ c → l ≤ c → c ≤ 31 → size_at_level ba l ≡ 2 ^ (c - l)
unfolding size_at_level
size_at_level-power c l ba h below small =
    ap u32 (ap (λ (t : ℕ). t / 2 ^ l) h ∙ power-div c l below)
    ∙ word (2 ^ (c - l)) (small_power (c - l) (omega arith))

levels_of-nr_levels : (a c : ℕ) → a ≤ c → c ≤ 31 → (levels_of (2 ^ c) (2 ^ a)).nr_levels ≡ c - a + 1
unfolding levels_of
levels_of-nr_levels a c h small =
    ap (λ t. log2_32 t + 1)
      (ap u32 (power-div c a h) ∙ word (2 ^ (c - a)) (small_power (c - a) (omega arith)))
    ∙ ap (λ t. t + 1) (log2_32-power (c - a) (omega arith))

levels_of-cap : (size min_size : ℕ) → (levels_of size min_size).cap ≡ size
unfolding levels_of
levels_of-cap size min_size = refl

level-small :
    (a c size : ℕ)
    → a ≤ c
    → c ≤ 31
    → size < 2 ^ a
    → level_at_size (levels_of (2 ^ c) (2 ^ a)) size ≡ c - a
unfolding level_at_size levels_of
level-small a c size h small below =
    if-true (log2_32 (u32 (2 ^ c / 2 ^ a)) + 1 - 1)
      (u32
        (log2_32 (u32 (2 ^ c / 2 ^ a)) + 1 + 2 ^ 32 - log2_32 (next_power_of_2 size / 2 ^ a) - 1))
      (ground arith)
    ∙ omega (arith, levels_of-nr_levels a c h small)

level-power :
    (a c j size : ℕ)
    → a ≤ j
    → j ≤ c
    → c ≤ 31
    → 2 ^ a ≤ size
    → next_power_of_2 size ≡ 2 ^ j
    → level_at_size (levels_of (2 ^ c) (2 ^ a)) size ≡ c - j
unfolding level_at_size levels_of
level-power a c j size h below small large power =
    let log : log2_32 (next_power_of_2 size / 2 ^ a) ≡ j - a =
      ap log2_32 (ap (λ (t : ℕ). t / 2 ^ a) power ∙ power-div j a h)
      ∙ log2_32-power (j - a) (omega arith) in
    if-false (log2_32 (u32 (2 ^ c / 2 ^ a)) + 1 - 1)
      (u32
        (log2_32 (u32 (2 ^ c / 2 ^ a)) + 1 + 2 ^ 32 - log2_32 (next_power_of_2 size / 2 ^ a) - 1))
      (ground arith)
    ∙ omega (arith, levels_of-nr_levels a c (omega arith) small, log)

back : (a c : ℕ) → a ≤ c → c - (c - a) ≡ a
back a c h = omega arith

sized : (a c l : ℕ) → c ≤ 31 → l ≤ c → size_at_level (levels_of (2 ^ c) (2 ^ a)) l ≡ 2 ^ (c - l)
sized a c l small below =
    size_at_level-power c l (levels_of (2 ^ c) (2 ^ a)) (levels_of-cap (2 ^ c) (2 ^ a)) below small

-- The least power of two at or above a number is less than twice the number.
half : (j size : ℕ) → 0 < size → ((i : ℕ) → size ≤ 2 ^ i → 2 ^ j ≤ 2 ^ i) → 2 ^ j < 2 * size
half zero size pos least = omega arith
half (suc j) size pos least = elim (dec_lt (2 ^ j) size) [
  | yes p ↦ omega (arith, pow-suc 2 j)
  | no p ↦ absurd (omega (arith, least j (omega arith), pow-suc 2 j, one-le-pow j 2))
]

levels_of-sized :
    (a c size : ℕ)
    → a ≤ c
    → c ≤ 31
    → 0 < size
    → size ≤ 2 ^ c
    → (level : ℕ) × (level_at_size (levels_of (2 ^ c) (2 ^ a)) size ≡ level)
      × (level < (levels_of (2 ^ c) (2 ^ a)).nr_levels)
      × (size ≤ size_at_level (levels_of (2 ^ c) (2 ^ a)) level)
      × ((level + 1 ≡ (levels_of (2 ^ c) (2 ^ a)).nr_levels)
          ⊎ (size_at_level (levels_of (2 ^ c) (2 ^ a)) level < 2 * size))
levels_of-sized a c size h small pos fits = elim (dec_lt size (2 ^ a)) [
  | yes below ↦ (
    c - a,
    level-small a c size h small below,
    omega (arith, levels_of-nr_levels a c h small),
    omega (arith, sized a c (c - a) small (omega arith), ap (λ k. 2 ^ k) (back a c h)),
    inl (sym (levels_of-nr_levels a c h small)),
  )
  | no large ↦
      let ((j, power), enough, least) =
        next_power_of_2_lem size pos (omega (arith, small_power c small)) in
      let above : a ≤ j = exponent_le a j (omega arith) in
      let under : j ≤ c = exponent_le j c (omega (arith, least c fits)) in
      let value : size_at_level (levels_of (2 ^ c) (2 ^ a)) (c - j) ≡ 2 ^ j =
        sized a c (c - j) small (omega arith) ∙ ap (λ k. 2 ^ k) (back j c under) in
      (
        c - j,
        level-power a c j size above under small (omega arith) power,
        omega (arith, levels_of-nr_levels a c h small),
        omega arith,
        inr (omega (arith, half j size pos (λ i e. omega (arith, least i e)))),
      )
]

-- The smallest block is a power of two from 16 on.
least_block : (a : ℕ) → (b : ℕ) × (max 16 (2 ^ a) ≡ 2 ^ b) × (b ≡ max 4 a)
least_block a = elim (dec_lt a 4) [
  | yes p ↦ (
    4,
    omega (arith, pow-le-pow_right {n = 2} (omega arith) {i = a} {j = 4} (omega arith)),
    omega arith,
  )
  | no p ↦ (
    a,
    omega (arith, pow-le-pow_right {n = 2} (omega arith) {i = 4} {j = a} (omega arith)),
    omega arith,
  )
]

-- In a buffer of 16 bytes or more and with a smallest block, both powers of two, the blocks of
-- the level for a size are large enough for it, and less than twice as large except at the last
-- level, for sizes from 1 to the buffer's, of 2^31 bytes at most.
pub level_at_size-size_at_level :
    (a c size : ℕ)
    → a ≤ c
    → 4 ≤ c
    → c ≤ 31
    → 0 < size
    → size ≤ 2 ^ c
    → (level : ℕ) × (level_at_size (with_levels (2 ^ c) (2 ^ a)) size ≡ level)
      × (level < (with_levels (2 ^ c) (2 ^ a)).nr_levels)
      × (size ≤ size_at_level (with_levels (2 ^ c) (2 ^ a)) level)
      × ((level + 1 ≡ (with_levels (2 ^ c) (2 ^ a)).nr_levels)
          ⊎ (size_at_level (with_levels (2 ^ c) (2 ^ a)) level < 2 * size))
unfolding with_levels
level_at_size-size_at_level a c size h room small pos fits =
    let (b, e, exponent) = least_block a in
    rw e (levels_of-sized b c size (omega arith) small pos fits)
