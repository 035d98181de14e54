-- ===== src/Memory/Buddy/Blocks/Ranges.antt =====
-- Two used blocks of the tree do not overlap.
use native.Mathlib.Nat.{
  pow-suc, one-le-pow, div-div-eq-div-mul, mul-le-mul_right, div-mul-le_self, lt-div-mul-add,
  suc-mul, mul_assoc,
}
use mathlib.Core.Path.{subst}
use tcengine.Base.{
  ℕ, zero, suc, ◌+◌, ◌-◌, ◌*◌, ◌/◌, ◌^◌, ◌≤◌, ◌<◌, ◌≡◌, ◌≢◌, ◌⊎◌, inl, inr, sym, ap, ◌∙◌, arith,
  dec_lt,
}
use tcengine.Math.Align.{split as pow_split}
use tcengine.Memory.Buddy.Blocks.Tree.{Status, absent, split, used, AreParts}
use tcengine.Memory.Buddy.Blocks.Flips.{half_of, above_split}

half_again : (q j : ℕ) → q / 2 / 2 ^ j ≡ q / 2 ^ suc j
half_again q j = div-div-eq-div-mul q 2 (2 ^ j) ∙ ap (λ (t : ℕ). q / t) (omega (arith, pow-suc 2 j))

zero_right : (l : ℕ) → l + 0 ≡ l
zero_right l = omega arith

next_level : (l k : ℕ) → l + suc k ≡ suc (l + k)
next_level l k = omega arith

above_lem :
    (st : ℕ → Status) (n q : ℕ)
    → AreParts st
    → st (2 ^ suc n + q) ≢ absent
    → st (2 ^ n + q / 2) ≡ split
above_lem st n q parts here =
    ap st (sym (half_of n q))
    ∙ above_split st (2 ^ suc n + q) parts (omega (arith, pow-suc 2 n, one-le-pow n 2)) here

-- What a block stands in is split.
ancestor_split :
    (st : ℕ → Status) (l k q : ℕ)
    → AreParts st
    → st (2 ^ suc (l + k) + q) ≢ absent
    → st (2 ^ l + q / 2 ^ suc k) ≡ split
ancestor_split st l zero q parts here =
    ap st (ap (λ (t : ℕ). 2 ^ t + q / 2) (sym (zero_right l))) ∙ above_lem st (l + 0) q parts here
ancestor_split st l (suc k) q parts here =
    let above = above_lem st (l + suc k) q parts here in
    let there : st (2 ^ suc (l + k) + q / 2) ≢ absent =
      λ t. cc (t, above, ap (λ n. st (2 ^ n + q / 2)) (next_level l k)) in
    ap (λ t. st (2 ^ l + t)) (sym (half_again q (suc k)))
    ∙ ancestor_split st l k (q / 2) parts there

unfoldable pub Apart : (a n b m : ℕ) → Type 0
Apart a n b m = (a + n ≤ b) ⊎ (b + m ≤ a)

same_block_twice :
    (st : ℕ → Status) (l k q r : ℕ)
    → AreParts st
    → st (2 ^ l + q) ≡ used
    → st (2 ^ (l + k) + r) ≡ used
    → r / 2 ^ k ≡ q
    → 2 ^ l + q ≡ 2 ^ (l + k) + r
same_block_twice st l zero q r parts is_q is_r e =
    omega (arith, e, ap (λ (t : ℕ). 2 ^ t) (zero_right l))
same_block_twice st l (suc k) q r parts is_q is_r e =
    let there : st (2 ^ suc (l + k) + r) ≢ absent =
      λ t. cc (t, is_r, ap (λ n. st (2 ^ n + r)) (next_level l k)) in
    cc (is_q, ancestor_split st l k r parts there, ap (λ t. st (2 ^ l + t)) e)

-- Two used blocks, the first of them on a level that is not below.
Apart-below :
    (c : ℕ) (st : ℕ → Status) (l k q r : ℕ)
    → AreParts st
    → l + k ≤ c
    → st (2 ^ l + q) ≡ used
    → st (2 ^ (l + k) + r) ≡ used
    → 2 ^ l + q ≢ 2 ^ (l + k) + r
    → Apart (q * 2 ^ (c - l)) (2 ^ (c - l)) (r * 2 ^ (c - (l + k))) (2 ^ (c - (l + k)))
unfolding Apart
Apart-below c st l k q r parts below is_q is_r differ =
    let s : ℕ = 2 ^ (c - (l + k)) in
    let t : ℕ = 2 ^ k in
    let wide : 2 ^ (c - l) ≡ t * s =
      ap (λ (n : ℕ). 2 ^ n) (omega (arith, below)) ∙ pow_split k (c - (l + k)) in
    let start : q * 2 ^ (c - l) ≡ q * t * s = ap (λ (n : ℕ). q * n) wide ∙ sym (mul_assoc q t s) in
    let after : q * 2 ^ (c - l) + 2 ^ (c - l) ≡ suc q * t * s =
      sym (suc-mul q (2 ^ (c - l)))
      ∙ ap (λ (n : ℕ). suc q * n) wide
      ∙ sym (mul_assoc (suc q) t s) in
    let a : ℕ = r / t in
    let low : a * t ≤ r = div-mul-le_self r t in
    let high : r < a * t + t = lt-div-mul-add {a = r} {b = t} (one-le-pow k 2 (omega arith)) in
    elim (dec_lt a q) [
      | yes left ↦
          let fits : suc r ≤ q * t = omega (arith, high, suc-mul a t, mul-le-mul_right t left) in
          inr (omega (arith, start, suc-mul r s, mul-le-mul_right s fits))
      | no n ↦ elim (dec_lt q a) [
        | yes right ↦
            let fits : suc q * t ≤ r = omega (arith, low, mul-le-mul_right t right) in
            inl (omega (arith, after, mul-le-mul_right s fits))
        | no m ↦ absurd (differ (same_block_twice st l k q r parts is_q is_r (omega (arith, n, m))))
      ]
    ]

pub Apart-sym : (a n b m : ℕ) → Apart a n b m → Apart b m a n
unfolding Apart
Apart-sym a n b m (inl h) = inr h
Apart-sym a n b m (inr h) = inl h

pub Apart-used :
    (c : ℕ) (st : ℕ → Status) (l m q r : ℕ)
    → AreParts st
    → l ≤ c
    → m ≤ c
    → st (2 ^ l + q) ≡ used
    → st (2 ^ m + r) ≡ used
    → 2 ^ l + q ≢ 2 ^ m + r
    → Apart (q * 2 ^ (c - l)) (2 ^ (c - l)) (r * 2 ^ (c - m)) (2 ^ (c - m))
Apart-used c st l m q r parts lc mc is_q is_r differ = elim (dec_lt m l) [
  | yes under ↦
      let e : m + (l - m) ≡ l = omega (arith, under) in
      Apart-sym (r * 2 ^ (c - m)) (2 ^ (c - m)) (q * 2 ^ (c - l)) (2 ^ (c - l)) (
        subst
          (λ n.
            st (2 ^ n + q) ≡ used
            → 2 ^ m + r ≢ 2 ^ n + q
            → n ≤ c
            → Apart (r * 2 ^ (c - m)) (2 ^ (c - m)) (q * 2 ^ (c - n)) (2 ^ (c - n)))
          e (λ u d h. Apart-below c st m (l - m) r q parts h is_r u d) is_q (λ t. differ (sym t))
          lc)
  | no above ↦
      let e : l + (m - l) ≡ m = omega (arith, above) in
      subst
        (λ n.
          st (2 ^ n + r) ≡ used
          → 2 ^ l + q ≢ 2 ^ n + r
          → n ≤ c
          → Apart (q * 2 ^ (c - l)) (2 ^ (c - l)) (r * 2 ^ (c - n)) (2 ^ (c - n)))
        e (λ u d h. Apart-below c st l (m - l) q r parts h is_q u d) is_r differ mc
]
