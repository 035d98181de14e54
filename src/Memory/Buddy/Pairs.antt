-- ===== src/Memory/Buddy/Pairs.antt =====
-- Which blocks are buddies, in a buffer whose size is a power of two.
use native.Mathlib.Nat.{
  pow-suc, one-le-pow, pow-le-pow_right, mul-div_cancel, mul-mod_left, suc-mul, div-div-eq-div-mul,
  mul-lt-mul_of_pos_right, div-lt_iff_lt-mul, div-add-mod',
}
use tcengine.Base.{
  ℕ, zero, suc, ◌+◌, ◌-◌, ◌*◌, ◌/◌, ◌%◌, ◌^◌, ◌≤◌, ◌<◌, ◌≡◌, ◌≢◌, sym, ap, ◌∙◌, arith, ℕ_discrete,
}
use tcengine.Base.{true, false, bit_and, bit_and_mask, ◌==◌, if-true, if-false, if◌then◌else◌}
use tcengine.Math.{u32}
use tcengine.Math.Align.{split, masked}
use tcengine.Memory.Buddy.{Buddy, size_at_level, block_index, aligned, buddy_offset}
use tcengine.Memory.Buddy.Levels.{size_at_level-power}

-- The number of the buddy among the blocks of the level.
unfoldable pub buddy_of : ℕ → ℕ
buddy_of q = if q % 2 == 0 then q + 1 else q - 1

pub buddy_of-half : (q : ℕ) → buddy_of q / 2 ≡ q / 2
unfolding buddy_of
buddy_of-half q = ground arith

pub buddy_of-ne : (q : ℕ) → buddy_of q ≢ q
unfolding buddy_of
buddy_of-ne q h = ground arith

pub buddy_of-below : (l q : ℕ) → q < 2 ^ suc l → buddy_of q < 2 ^ suc l
unfolding buddy_of
buddy_of-below l q h = ground (arith, pow-suc 2 l)

suc_of : (q : ℕ) → q + 1 ≡ suc q
suc_of q = omega arith

pub next_block : (q s : ℕ) → (q + 1) * s ≡ q * s + s
next_block q s = ap (λ (t : ℕ). t * s) (suc_of q) ∙ suc-mul q s

pub previous_block : (q s : ℕ) → 0 < q → (q - 1) * s + s ≡ q * s
previous_block zero s h = absurd (omega arith)
previous_block (suc q) s h = sym (next_block (suc q - 1) s) ∙ ap (λ (t : ℕ). t * s) (omega arith)

pub same_block : (a b s : ℕ) → 0 < s → a * s ≡ b * s → a ≡ b
same_block a b s h e = sym (mul-div_cancel a h) ∙ ap (λ (t : ℕ). t / s) e ∙ mul-div_cancel b h

is_one : (n : ℕ) → n ≡ 1 → (n == 1) ≡ true
is_one n h = ground arith

not_one : (n : ℕ) → n ≡ 0 → (n == 1) ≡ false
not_one n h = ground arith

is_zero : (n : ℕ) → n ≡ 0 → (n == 0) ≡ true
is_zero n h = ground arith

is_positive : (n : ℕ) → n ≢ 0 → (n == 0) ≡ false
is_positive n h = ground arith

module _ (c : ℕ) (ba : Buddy) (power : ba.cap ≡ 2 ^ c) (small : c ≤ 31) where
  sums : (l : ℕ) → l ≤ c → l + (c - l) ≡ c
  sums l h = omega arith

  fills : (l : ℕ) → 32 - (c - l) + (c - l) ≡ 32
  fills l = omega arith

  pub step : (l : ℕ) → suc l ≤ c → c - l ≡ suc (c - suc l)
  step l h = omega arith

  block_end : (l q : ℕ) → l ≤ c → q < 2 ^ l → q * 2 ^ (c - l) < 2 ^ 31
  block_end l q below h = omega (
    arith,
    mul-lt-mul_of_pos_right {m = q} {n = 2 ^ l} {k = 2 ^ (c - l)} h
        (one-le-pow (c - l) 2 (omega arith)),
    split l (c - l),
    ap (λ k. 2 ^ k) (sums l below),
    pow-le-pow_right {n = 2} (omega arith) {i = c} {j = 31} small,
  )

  block_index-block :
      (l q : ℕ) → l ≤ c → q < 2 ^ l → block_index ba (q * 2 ^ (c - l)) l ≡ 2 ^ l + q - 1
  unfolding block_index
  block_index-block l q below h =
      ap (λ s. u32 (2 ^ l + q * 2 ^ (c - l) / s - 1)) (size_at_level-power c l ba power below small)
      ∙ ap (λ t. u32 (2 ^ l + t - 1)) (mul-div_cancel q (one-le-pow (c - l) 2 (omega arith)))
      ∙ omega (arith, pow-le-pow_right {n = 2} (omega arith) {i = l} {j = 31} (omega arith))

  aligned-block :
      (l q : ℕ) → l ≤ c → q < 2 ^ l → aligned (q * 2 ^ (c - l)) (2 ^ (c - l)) ≡ q * 2 ^ (c - l)
  unfolding aligned
  aligned-block l q below h =
      masked (32 - (c - l)) (c - l) (q * 2 ^ (c - l))
        (sym (split (32 - (c - l)) (c - l)) ∙ ap (λ k. 2 ^ k) (fills l))
      ∙ omega (arith, mul-mod_left q (2 ^ (c - l)), block_end l q below h)

  parity :
      (l q : ℕ)
      → suc l ≤ c
      → q < 2 ^ suc l
      → bit_and (block_index ba (q * 2 ^ (c - suc l)) (suc l)) 1 ≡ (q + 1) % 2
  parity l q below h =
      ap (λ t. bit_and t 1) (block_index-block (suc l) q below h)
      ∙ bit_and_mask 1 (2 ^ suc l + q - 1)
      ∙ omega (arith, pow-suc 2 l, one-le-pow l 2)

  pub buddy_offset-block :
      (l q : ℕ)
      → suc l ≤ c
      → q < 2 ^ suc l
      → buddy_offset ba (q * 2 ^ (c - suc l)) (suc l) ≡ buddy_of q * 2 ^ (c - suc l)
  unfolding buddy_offset buddy_of
  buddy_offset-block l q below h =
      let s : ℕ = 2 ^ (c - suc l) in
      let x : ℕ = q * s in
      let size : size_at_level ba (suc l) ≡ s =
        size_at_level-power c (suc l) ba power below small in
      let start : aligned x (size_at_level ba (suc l)) ≡ x =
        ap (aligned x) size ∙ aligned-block (suc l) q below h in
      let right = u32 (aligned x (size_at_level ba (suc l)) + size_at_level ba (suc l)) in
      let left = u32 (aligned x (size_at_level ba (suc l)) + 2 ^ 32 - size_at_level ba (suc l)) in
      elim (ℕ_discrete (q % 2) 0) [
        | yes even ↦
            if-true right left
              (is_one (bit_and (block_index ba x (suc l)) 1) (parity l q below h ∙ omega arith))
            ∙ omega (
              arith,
              start,
              size,
              next_block q s,
              block_end (suc l) (q + 1) below (omega (arith, pow-suc 2 l)),
            )
            ∙ ap (λ b. b * s) (sym (if-true (q + 1) (q - 1) (is_zero (q % 2) even)))
        | no odd ↦
            if-false right left
              (not_one (bit_and (block_index ba x (suc l)) 1) (parity l q below h ∙ omega arith))
            ∙ omega
                (arith, start, size, previous_block q s (omega arith), block_end (suc l) q below h)
            ∙ ap (λ b. b * s) (sym (if-false (q + 1) (q - 1) (is_positive (q % 2) odd)))
      ]

  -- The number of the block at the level above.
  pub parent :
      (l q : ℕ) → suc l ≤ c → block_index ba (q * 2 ^ (c - suc l)) l ≡ u32 (2 ^ l + q / 2 - 1)
  unfolding block_index
  parent l q below =
      let s : ℕ = 2 ^ (c - suc l) in
      let size : size_at_level ba l ≡ s * 2 =
        size_at_level-power c l ba power (omega arith) small
        ∙ ap (λ k. 2 ^ k) (step l below)
        ∙ pow-suc 2 (c - suc l) in
      ap (λ t. u32 (2 ^ l + q * s / t - 1)) size
      ∙ ap (λ t. u32 (2 ^ l + t - 1))
          (sym (div-div-eq-div-mul (q * s) s 2)
            ∙ ap (λ (t : ℕ). t / 2) (mul-div_cancel q (one-le-pow (c - suc l) 2 (omega arith))))

  pub number_below : (l x : ℕ) → suc l ≤ c → x < 2 ^ c → x / 2 ^ (c - suc l) < 2 ^ suc l
  number_below l x below h =
      (div-lt_iff_lt-mul {k = 2 ^ (c - suc l)} {x = x} {y = 2 ^ suc l}
          (one-le-pow (c - suc l) 2 (omega arith))).1
        (omega (arith, h, split (suc l) (c - suc l), ap (λ k. 2 ^ k) (sums (suc l) below)))

  -- The block that an offset stands in.
  aligned-inside :
      (l x : ℕ)
      → suc l ≤ c
      → x < 2 ^ c
      → aligned x (2 ^ (c - suc l))
        ≡ aligned (x / 2 ^ (c - suc l) * 2 ^ (c - suc l)) (2 ^ (c - suc l))
  aligned-inside l x below h =
      let k : ℕ = c - suc l in
      let raw : aligned x (2 ^ k) ≡ (x - x % 2 ^ k) % 2 ^ 32 =
        unfold aligned in
        masked (32 - k) k x (sym (split (32 - k) k) ∙ ap (λ k. 2 ^ k) (fills (suc l))) in
      raw
      ∙ omega (
        arith,
        div-add-mod' x (2 ^ k),
        h,
        pow-le-pow_right {n = 2} (omega arith) {i = c} {j = 31} small,
      )
      ∙ sym (aligned-block (suc l) (x / 2 ^ k) below (number_below l x below h))

  index-inside :
      (l x : ℕ)
      → suc l ≤ c
      → block_index ba x (suc l) ≡ block_index ba (x / 2 ^ (c - suc l) * 2 ^ (c - suc l)) (suc l)
  unfolding block_index
  index-inside l x below =
      let s : ℕ = 2 ^ (c - suc l) in
      ap (λ t. u32 (2 ^ suc l + t - 1))
        (ap (λ (t : ℕ). x / t) (size_at_level-power c (suc l) ba power below small)
          ∙ sym (mul-div_cancel (x / s) (one-le-pow (c - suc l) 2 (omega arith)))
          ∙ ap (λ (t : ℕ). x / s * s / t)
              (sym (size_at_level-power c (suc l) ba power below small)))

  pub buddy_offset-inside :
      (l x : ℕ)
      → suc l ≤ c
      → x < 2 ^ c
      → buddy_offset ba x (suc l) ≡ buddy_of (x / 2 ^ (c - suc l)) * 2 ^ (c - suc l)
  unfolding buddy_offset
  buddy_offset-inside l x below h =
      let s : ℕ = 2 ^ (c - suc l) in
      let size : ℕ = size_at_level ba (suc l) in
      let is_s : size ≡ s = size_at_level-power c (suc l) ba power below small in
      let at : ℕ → ℕ → ℕ =
        λ i a. if bit_and i 1 == 1 then u32 (a + size) else u32 (a + 2 ^ 32 - size) in
      ap (λ i. at i (aligned x size)) (index-inside l x below)
      ∙ ap (at (block_index ba (x / s * s) (suc l)))
          (ap (aligned x) is_s ∙ aligned-inside l x below h ∙ ap (aligned (x / s * s)) (sym is_s))
      ∙ buddy_offset-block l (x / s) below (number_below l x below h)
