-- ===== src/Memory/Buddy/Blocks/Create.antt =====
-- What buddy_create makes fits a tree, where the fields take a part of every left-most block.
use native.Mathlib.Nat.{
  pow-suc, one-le-pow, div-div-eq-div-mul, lt-div-mul-add, div-mul-le_self, div-eq_of_lt,
  div-lt_iff_lt-mul, pow-le-pow_right,
}
use mathlib.Core.Path.{subst}
use tcengine.Base.{
  ℕ, zero, suc, ◌+◌, ◌-◌, ◌*◌, ◌/◌, ◌%◌, ◌^◌, ◌≤◌, ◌<◌, ◌≡◌, ◌≢◌, inl, refl, sym, ap, ◌∙◌, arith,
  ℕ_discrete, ==_false,
}
use tcengine.Base.{true, false, [], ◌∷◌, ◌++◌, ltb, ◌==◌, if◌then◌else◌, if-true, if-false, update}
use tcengine.Memory.Buddy.{Buddy, block_index, buddy_offset}
use tcengine.Memory.Buddy.Levels.{size_at_level-power}
use tcengine.Memory.Buddy.Pairs.{
  step, buddy_offset-inside, number_below, next_block, previous_block,
}
use tcengine.Memory.Buddy.Blocks.{
  Blocks, bit_toggle, with_free, reserve_level, reserve, buddy_create,
}
use tcengine.Memory.Buddy.Blocks.Tree.{
  Status, absent, free, split, used, is_free, count, AreBlocks, Fits, AreParts,
}
use tcengine.Memory.Buddy.Blocks.Flips.{AreParts-update, update_self, update_ne, still-Fits}
use tcengine.Memory.Buddy.Blocks.Halves.{split-Fits, halve, one_if}
use tcengine.Memory.Buddy.Blocks.Toggles.{buddy_of-even, buddy_of-odd}
use tcengine.Math.{u32}
use tcengine.Math.Align.{split as pow_split}

-- Only the whole buffer is there, and the fields use it.
start : ℕ → Status
start n = if n == 1 then used else absent

whole : (l c : ℕ) → l ≤ c → l + (c - l) ≡ c
whole l c h = omega (arith, h)

minus_zero : (c : ℕ) → c - 0 ≡ c
minus_zero c = omega arith

ltb_yes : (a b : ℕ) → a < b → ltb a b ≡ true
ltb_yes a b h = ground arith

ltb_no : (a b : ℕ) → b ≤ a → ltb a b ≡ false
ltb_no a b h = ground arith

start_ne : (n : ℕ) → n ≢ 1 → start n ≡ absent
unfolding start
start_ne n h = rw (==_false n 1 h) refl

start-Fits : (c : ℕ) → Fits c start (record { free = λ level. []; bits = λ i. false })
unfolding count AreBlocks AreParts
start-Fits c = record {
  lists = λ l q below inside. sym (
      ap (λ t. one_if (is_free t))
        (start_ne (2 ^ suc l + q) (λ t. omega (arith, t, pow-suc 2 l, one-le-pow l 2))));
  blocks = λ l below. tt;
  bits = λ n pos.
      rw
        (
          start_ne (2 * n) (λ t. omega (arith, t)),
          start_ne (2 * n + 1) (λ t. omega (arith, t, pos)),
        )
        refl;
  parts = λ n pos h.
      (start_ne (2 * n) (λ t. omega (arith, t)), start_ne (2 * n + 1) (λ t. omega (arith, t, pos)));
}

-- The tree has a used block at a level, in which the offset stands.
abbrev Reserves : (c offset level : ℕ) → Blocks → Type 0
Reserves c offset level s =
    (st : ℕ → Status) × Fits c st s × (st (2 ^ level + offset / 2 ^ (c - level)) ≡ used)

module _ (c : ℕ) (ba : Buddy) (power : ba.cap ≡ 2 ^ c) (small : c ≤ 31) where
  half_number : (l x : ℕ) → suc l ≤ c → x / 2 ^ (c - suc l) / 2 ≡ x / 2 ^ (c - l)
  half_number l x below =
      div-div-eq-div-mul x (2 ^ (c - suc l)) 2
      ∙ ap (λ (t : ℕ). x / t)
          (sym (pow-suc 2 (c - suc l))
            ∙ ap (λ (t : ℕ). 2 ^ t) (sym (step c ba power small l below)))

  level_below : (l x : ℕ) → l ≤ c → x < 2 ^ c → x / 2 ^ (c - l) < 2 ^ l
  level_below l x below inside =
      (div-lt_iff_lt-mul {k = 2 ^ (c - l)} {x = x} {y = 2 ^ l}
          (one-le-pow (c - l) 2 (omega arith))).1
        (omega (arith, inside, pow_split l (c - l), ap (λ (t : ℕ). 2 ^ t) (whole l c below)))

  index_of : (l x : ℕ) → l ≤ c → x < 2 ^ c → block_index ba x l ≡ 2 ^ l + x / 2 ^ (c - l) - 1
  unfolding block_index
  index_of l x below inside =
      ap (λ (t : ℕ). u32 (2 ^ l + x / t - 1)) (size_at_level-power c l ba power below small)
      ∙ omega (
        arith,
        level_below l x below inside,
        pow-le-pow_right {n = 2} (omega arith) {i = l} {j = 31} (omega (arith, below, small)),
      )

  reserve_level-Reserves :
      (x l : ℕ) (s : Blocks)
      → suc l ≤ c
      → x < 2 ^ c
      → Reserves c x l s
      → Reserves c x (suc l) (reserve_level ba x l s)
  unfolding reserve_level AreParts
  reserve_level-Reserves x l s below inside (st, fits, is) =
      let q : ℕ = x / 2 ^ (c - suc l) in
      let p : ℕ = x / 2 ^ (c - l) in
      let half : q / 2 ≡ p = half_number l x below in
      let at = buddy_offset-inside c ba power small l x below inside in
      let b : ℕ = 2 ^ l + p in
      let b_pos : 0 < b = omega (arith, one-le-pow l 2) in
      let size : ℕ = 2 ^ (c - suc l) in
      let low : q * size ≤ x = div-mul-le_self x size in
      let high : x < q * size + size =
        lt-div-mul-add {a = x} {b = size} (one-le-pow (c - suc l) 2 (omega arith)) in
      let p_below : p < 2 ^ l =
        omega (arith, half, number_below c ba power small l x below inside, pow-suc 2 l) in
      let buddy : ℕ = buddy_offset ba x (suc l) in
      let takes : Blocks =
        bit_toggle (block_index ba x l) (with_free (suc l) (s.free (suc l) ++ (buddy ∷ [])) s) in
      elim (ℕ_discrete (q % 2) 0) [
        | yes even ↦
            let here : buddy ≡ (2 * p + 1) * size =
              at ∙ ap (λ (t : ℕ). t * size) (buddy_of-even q even ∙ omega (arith, half, even)) in
            let above : ltb x buddy ≡ true = ltb_yes x buddy (
              omega (
                arith,
                high,
                at,
                ap (λ (t : ℕ). t * size) (buddy_of-even q even),
                next_block q size,
              )) in
            let st2 = update st b split in
            let st3 = update st2 (2 * b) used in
            let st4 = update st3 (2 * b + 1) free in
            (
              st4,
              subst (Fits c st4) (sym (if-true takes s above)) (
                  subst
                    (λ i.
                      Fits c st4
                        (bit_toggle i (with_free (suc l) (s.free (suc l) ++ (buddy ∷ [])) s)))
                    (sym (index_of l x (omega arith) inside))
                    (subst
                      (λ k. Fits c st4 (
                        bit_toggle (2 ^ l + p - 1)
                          (with_free (suc l) (s.free (suc l) ++ (k ∷ [])) s)))
                      (sym here) (split-Fits c ba power small st s l p below p_below fits is))),
              ap st4 (omega (arith, half, even, pow-suc 2 l))
                  ∙ update_ne st3 (2 * b + 1) (2 * b) free (λ t. omega (arith, t))
                  ∙ update_self st2 (2 * b) used,
            )
        | no odd ↦
            let not_above : ltb x buddy ≡ false = ltb_no x buddy (
              omega (
                arith,
                low,
                at,
                ap (λ (t : ℕ). t * size) (buddy_of-odd q odd),
                previous_block q size (omega (arith, odd)),
              )) in
            let st2 = update st b split in
            let parts2 = (halve c ba power small st b fits.parts b_pos is).0 in
            let gone = (fits.parts b b_pos (λ t. cc (t, is))).1 in
            let gone2 : st2 (2 * b + 1) ≡ absent =
              update_ne st b (2 * b + 1) split (λ t. omega (arith, t, b_pos)) ∙ gone in
            let st3 = update st2 (2 * b + 1) used in
            let parts3 : AreParts st3 =
              AreParts-update st2 (2 * b + 1) used parts2 (omega (arith, b_pos))
                (λ n. parts2 (2 * b + 1) (omega (arith, b_pos)) (λ t. cc (t, gone2)))
                (λ u. inl (ap st2 (omega arith) ∙ update_self st b split)) in
            (
              st3,
              subst (Fits c st3) (sym (if-false takes s not_above)) (
                  still-Fits c st2 s (2 * b + 1) used
                    (still-Fits c st s b split fits (sym (ap is_free is)) parts2)
                    (sym (ap is_free gone2)) parts3),
              ap st3 (omega (arith, half, odd, pow-suc 2 l)) ∙ update_self st2 (2 * b + 1) used,
            )
      ]

  reserve-Reserves :
      (x n : ℕ) (s : Blocks)
      → n ≤ c
      → x < 2 ^ c
      → Reserves c x 0 s
      → Reserves c x n (reserve ba x n s)
  unfolding reserve
  reserve-Reserves x zero s below inside r = r
  reserve-Reserves x (suc l) s below inside r =
      reserve_level-Reserves x l (reserve ba x l s) below inside
        (reserve-Reserves x l s (omega arith) inside r)

  -- buddy_create makes lists and bits that fit a tree.
  pub buddy_create-Fits :
      (offset : ℕ)
      → ba.nr_levels ≤ c + 2
      → offset < 2 ^ c
      → (st : ℕ → Status) × Fits c st (buddy_create ba offset)
  unfolding buddy_create start
  buddy_create-Fits offset levels inside =
      let root : 2 ^ 0 + offset / 2 ^ (c - 0) ≡ 1 = omega (
        arith,
        div-eq_of_lt {n = offset} {m = 2 ^ c} inside,
        ap (λ (t : ℕ). offset / 2 ^ t) (minus_zero c),
      ) in
      let (st, fits, is) =
        reserve-Reserves offset (ba.nr_levels - 2)
          (record { free = λ level. []; bits = λ i. false }) (omega (arith, levels)) inside
          (start, start-Fits c, ap start root) in
      (st, fits)
