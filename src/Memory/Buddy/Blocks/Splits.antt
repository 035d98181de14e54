-- ===== src/Memory/Buddy/Blocks/Splits.antt =====
-- buddy_alloc_block takes a free block, or half of one of the level above.
use native.Mathlib.Nat.{pow-suc, one-le-pow, pow-le-pow_right}
use mathlib.Core.Path.{subst}
use tcengine.Base.{
  ℕ, zero, suc, ◌+◌, ◌-◌, ◌*◌, ◌^◌, ◌≤◌, ◌<◌, ◌≡◌, ◌≢◌, inl, refl, sym, ap, ◌∙◌, arith, ℕ_discrete,
}
use tcengine.Base.{
  true, false, not, Option, none, some, List, [], ◌∷◌, ◌++◌, ◌==◌, ==_self, if◌then◌else◌, update,
}
use tcengine.Memory.Buddy.{Buddy, size_at_level, block_index}
use tcengine.Memory.Buddy.Levels.{size_at_level-power}
use tcengine.Memory.Buddy.Pairs.{next_block}
use tcengine.Memory.Buddy.Blocks.{Blocks, bit_toggle, with_free, take_block, buddy_alloc_block}
use tcengine.Memory.Buddy.Blocks.Tree.{
  Status, free, split, used, is_free, is_used, count, AreBlocks, Fits, AreParts,
}
use tcengine.Memory.Buddy.Blocks.Flips.{
  AreParts-update, update_self, update_ne, halves, flip-Fits, above_split,
}
use tcengine.Memory.Buddy.Blocks.Halves.{
  parent_index, other_block, twice, split-Fits, one_if, one_free,
}

-- One block becomes used, and no other.
abbrev pub Allocates : (c level : ℕ) → (ℕ → Status) → Blocks × Option ℕ → Type 0
Allocates c level st (s, none) = Fits c st s
Allocates c level st (s, some x) =
    (after : ℕ → Status) × (q : ℕ) × (0 < level)
    × (q < 2 ^ level)
    × (x ≡ q * 2 ^ (c - level))
    × Fits c after s
    × (after (2 ^ level + q) ≡ used)
    × (is_used (st (2 ^ level + q)) ≡ false)
    × ((m : ℕ) → m ≢ 2 ^ level + q → is_used (after m) ≡ is_used (st m))

not_free : (x : Status) (n : ℕ) → n ≡ (if is_free x then 1 else 0) → 0 < n → is_free x ≡ true
not_free x n e h = ground arith

module _ (c : ℕ) (ba : Buddy) (power : ba.cap ≡ 2 ^ c) (small : c ≤ 31) where
  pop-Allocates :
      (st : ℕ → Status) (s : Blocks) (l x : ℕ) (xs : List ℕ)
      → Fits c st s
      → suc l ≤ c
      → s.free (suc l) ≡ x ∷ xs
      → Allocates c (suc l) st (bit_toggle (block_index ba x l) (with_free (suc l) xs s), some x)
  unfolding count AreBlocks AreParts
  pop-Allocates st s l x xs fits below e =
      let ((q, inside, at), rest) = subst (AreBlocks c l) e (fits.blocks l below) in
      let k : ℕ = q * 2 ^ (c - suc l) in
      let b : ℕ = 2 ^ suc l + q in
      let counted : 1 + count k xs ≡ (if is_free (st b) then 1 else 0) =
        ap (λ t. one_if t + count k xs) (sym (==_self k))
        ∙ ap (λ y. one_if (y == k) + count k xs) (sym at)
        ∙ ap (count k) (sym e)
        ∙ fits.lists l q below inside in
      let was : is_free (st b) ≡ true = not_free (st b) (1 + count k xs) counted (omega arith) in
      let is : st b ≡ free = one_free (st b) was in
      let parts : AreParts (update st b used) =
        AreParts-update st b used fits.parts (omega (arith, pow-suc 2 l, one-le-pow l 2))
          (λ n. fits.parts b (omega (arith, one-le-pow (suc l) 2)) (λ t. cc (t, is)))
          (λ u. inl (
            above_split st b fits.parts (omega (arith, pow-suc 2 l, one-le-pow l 2))
              (λ t. cc (t, is)))) in
      (
        update st b used,
        q,
        omega arith,
        inside,
        at,
        subst (λ i. Fits c (update st b used) (bit_toggle i (with_free (suc l) xs s)))
            (sym (ap (λ y. block_index ba y l) at ∙ parent_index c ba power small l q below inside))
            (flip-Fits c st s l q fits below inside used xs (ap not (sym was)) parts rest
              (omega (arith, counted, ap (λ (t : Status). one_if (is_free t)) is))
              (λ r bound other. sym (
                ap (count (r * 2 ^ (c - suc l))) e
                ∙ ap (λ y. one_if (y == r * 2 ^ (c - suc l)) + count (r * 2 ^ (c - suc l)) xs) at
                ∙ ap (λ t. one_if t + count (r * 2 ^ (c - suc l)) xs)
                    (other_block c ba power small l q r other)
                ∙ omega arith))),
        update_self st b used,
        ap is_used is,
        λ m h. ap is_used (update_ne st b m used h),
      )

  split-Allocates :
      (st : ℕ → Status) (s : Blocks) (l y : ℕ)
      → suc l ≤ c
      → Allocates c l st (s, some y)
      → Allocates c (suc l) st (
        bit_toggle
            (block_index ba y l)
            (with_free (suc l) (s.free (suc l) ++ ((y + size_at_level ba (suc l)) ∷ [])) s),
        some y,
      )
  unfolding AreParts
  split-Allocates st s l y below (st1, p, pos, inside, at, fits, is, was, others) =
      let b : ℕ = 2 ^ l + p in
      let big : 2 ≤ b =
        omega
          (arith, pow-le-pow_right {n = 2} (omega arith) {i = 1} {j = l} (omega (arith, pos))) in
      let st2 = update st1 b split in
      let st3 = update st2 (2 * b) used in
      let st4 = update st3 (2 * b + 1) free in
      let at' : y ≡ 2 * p * 2 ^ (c - suc l) = at ∙ twice c ba power small l p below in
      let index : block_index ba y l ≡ 2 ^ l + p - 1 =
        ap (λ t. block_index ba t l) at'
        ∙ parent_index c ba power small l (2 * p) below (omega (arith, pow-suc 2 l))
        ∙ omega arith in
      let right : y + size_at_level ba (suc l) ≡ (2 * p + 1) * 2 ^ (c - suc l) =
        ap (λ (t : ℕ). t + size_at_level ba (suc l)) at'
        ∙ ap (λ (t : ℕ). 2 * p * 2 ^ (c - suc l) + t)
            (size_at_level-power c (suc l) ba power below small)
        ∙ sym (next_block (2 * p) (2 ^ (c - suc l))) in
      let left_absent : is_used (st1 (2 * b)) ≡ false =
        ap is_used (fits.parts b (omega (arith, big)) (λ t. cc (t, is))).0 in
      let right_absent : is_used (st1 (2 * b + 1)) ≡ false =
        ap is_used (fits.parts b (omega (arith, big)) (λ t. cc (t, is))).1 in
      (
        st4,
        2 * p,
        omega arith,
        omega (arith, pow-suc 2 l),
        at',
        subst
            (λ i. Fits c st4 (
              bit_toggle i
                (with_free (suc l) (s.free (suc l) ++ ((y + size_at_level ba (suc l)) ∷ [])) s)))
            (sym index)
            (subst
              (λ k.
                Fits c st4
                  (bit_toggle (2 ^ l + p - 1) (with_free (suc l) (s.free (suc l) ++ (k ∷ [])) s)))
              (sym right) (split-Fits c ba power small st1 s l p below inside fits is)),
        ap st4 (halves l p)
            ∙ update_ne st3 (2 * b + 1) (2 * b) free (λ t. omega (arith, t))
            ∙ update_self st2 (2 * b) used,
        ap (λ n. is_used (st n)) (halves l p)
            ∙ sym (others (2 * b) (λ t. omega (arith, t, big)))
            ∙ left_absent,
        λ m h.
            let h' : m ≢ 2 * b = λ t. h (t ∙ sym (halves l p)) in
            elim (ℕ_discrete m b) [
              | yes e ↦
                  ap (λ n. is_used (st4 n)) e
                  ∙ ap is_used (
                      update_ne st3 (2 * b + 1) b free (λ t. omega (arith, t, big))
                      ∙ update_ne st2 (2 * b) b used (λ t. omega (arith, t, big))
                      ∙ update_self st1 b split)
                  ∙ sym (ap (λ n. is_used (st n)) e ∙ was)
              | no e ↦ elim (ℕ_discrete m (2 * b + 1)) [
                | yes t ↦
                    ap (λ n. is_used (st4 n)) t
                    ∙ ap is_used (update_self st3 (2 * b + 1) free)
                    ∙ sym (
                        ap (λ n. is_used (st n)) t
                        ∙ sym (others (2 * b + 1) (λ u. omega (arith, u, big)))
                        ∙ right_absent)
                | no t ↦
                    ap is_used (
                      update_ne st3 (2 * b + 1) m free t
                      ∙ update_ne st2 (2 * b) m used h'
                      ∙ update_ne st1 b m split e)
                    ∙ others m e
              ]
            ],
      )

  take-Allocates :
      (st : ℕ → Status) (s : Blocks) (l : ℕ) (xs : List ℕ) (above : Blocks × Option ℕ)
      → Fits c st s
      → suc l ≤ c
      → s.free (suc l) ≡ xs
      → Allocates c l st above
      → Allocates c (suc l) st (take_block ba l xs s above)
  unfolding take_block
  take-Allocates st s l (x ∷ xs) above fits below e h = pop-Allocates st s l x xs fits below e
  take-Allocates st s l [] (s', none) fits below e h = h
  take-Allocates st s l [] (s', some y) fits below e h = split-Allocates st s' l y below h

  pub buddy_alloc_block-Allocates :
      (st : ℕ → Status) (s : Blocks) (level : ℕ)
      → Fits c st s
      → level ≤ c
      → Allocates c level st (buddy_alloc_block ba level s)
  unfolding buddy_alloc_block
  buddy_alloc_block-Allocates st s zero fits below = fits
  buddy_alloc_block-Allocates st s (suc l) fits below =
      take-Allocates st s l (s.free (suc l)) (buddy_alloc_block ba l s) fits below refl
        (buddy_alloc_block-Allocates st s l fits (omega arith))
