-- ===== src/Memory/Buddy/Blocks/Merges.antt =====
-- A block that is given back, alone or merged with its buddy.
use native.Mathlib.Nat.{pow-suc, one-le-pow}
use mathlib.Core.Path.{subst}
use tcengine.Base.{
  ℕ, suc, ◌+◌, ◌-◌, ◌*◌, ◌/◌, ◌%◌, ◌^◌, ◌≤◌, ◌<◌, ◌≡◌, ◌≢◌, inl, inr, refl, sym, ap, ◌∙◌, arith,
  ℕ_discrete,
}
use tcengine.Base.{true, false, not, [], ◌∷◌, ◌++◌, ◌==◌, ==_self, update}
use tcengine.Memory.Buddy.{Buddy}
use tcengine.Memory.Buddy.Pairs.{buddy_of, buddy_of-half, buddy_of-ne, buddy_of-below}
use tcengine.Memory.Buddy.Blocks.{Blocks, bit_toggle, with_free, list_remove}
use tcengine.Memory.Buddy.Blocks.Tree.{
  Status, absent, free, split, used, is_free, is_used, count, count-append, AreBlocks,
  AreBlocks-append, AreBlocks-list_remove, Fits, AreParts,
}
use tcengine.Memory.Buddy.Blocks.Flips.{
  AreParts-update, update_self, update_ne, half_of, still-Fits, flip-Fits, above_split,
}
use tcengine.Memory.Buddy.Blocks.Halves.{one_if, one_free, other_block}
use tcengine.Memory.Buddy.Blocks.Toggles.{
  buddy_of-even, buddy_of-odd, differ_right, none_left, others_left,
}

-- One block is no longer used, and the others are as before.
abbrev pub Frees : (c b : ℕ) → (ℕ → Status) → Blocks → Type 0
Frees c b st s =
    (after : ℕ → Status) × Fits c after s
    × (is_used (after b) ≡ false)
    × ((m : ℕ) → m ≢ b → is_used (after m) ≡ is_used (st m))

module _ (c : ℕ) (ba : Buddy) (power : ba.cap ≡ 2 ^ c) (small : c ≤ 31) where
  -- The bit of the parent of a block that is not free tells whether the buddy is.
  pub bit_of_used :
      (st : ℕ → Status) (s : Blocks) (l q : ℕ)
      → Fits c st s
      → is_free (st (2 ^ suc l + q)) ≡ false
      → s.bits (2 ^ l + q / 2 - 1) ≡ is_free (st (2 ^ suc l + buddy_of q))
  bit_of_used st s l q fits no_free =
      let p : ℕ = 2 ^ l + q / 2 in
      fits.bits p (omega (arith, one-le-pow l 2)) ∙ elim (ℕ_discrete (q % 2) 0) [
        | yes even ↦
            let own : is_free (st (2 * p)) ≡ false =
              ap (λ n. is_free (st n)) (omega (arith, pow-suc 2 l, even)) ∙ no_free in
            let other : 2 * p + 1 ≡ 2 ^ suc l + buddy_of q =
              omega (arith, pow-suc 2 l, even, buddy_of-even q even) in
            rw own (ap (λ n. is_free (st n)) other)
        | no odd ↦
            let own : is_free (st (2 * p + 1)) ≡ false =
              ap (λ n. is_free (st n)) (omega (arith, pow-suc 2 l, odd)) ∙ no_free in
            let other : 2 * p ≡ 2 ^ suc l + buddy_of q =
              omega (arith, pow-suc 2 l, odd, buddy_of-odd q odd) in
            rw own (differ_right (is_free (st (2 * p))) ∙ ap (λ n. is_free (st n)) other)
      ]

  -- The block goes to the list of its level.
  pub return-Frees :
      (st : ℕ → Status) (s : Blocks) (l q : ℕ)
      → suc l ≤ c
      → q < 2 ^ suc l
      → Fits c st s
      → st (2 ^ suc l + q) ≡ used
      → Frees c (2 ^ suc l + q) st (
          bit_toggle
            (2 ^ l + q / 2 - 1)
            (with_free (suc l) (s.free (suc l) ++ ((q * 2 ^ (c - suc l)) ∷ [])) s))
  unfolding count AreBlocks AreParts
  return-Frees st s l q below inside fits is =
      let b : ℕ = 2 ^ suc l + q in
      let k : ℕ = q * 2 ^ (c - suc l) in
      let big : 2 ≤ b = omega (arith, pow-suc 2 l, one-le-pow l 2) in
      let counts : (r : ℕ)
          → count (r * 2 ^ (c - suc l)) (s.free (suc l) ++ (k ∷ []))
            ≡ count (r * 2 ^ (c - suc l)) (s.free (suc l)) + one_if (k == r * 2 ^ (c - suc l)) =
        λ r. count-append (r * 2 ^ (c - suc l)) (s.free (suc l)) (k ∷ []) ∙ omega arith in
      let parts : AreParts (update st b free) =
        AreParts-update st b free fits.parts (omega (arith, big))
          (λ n. fits.parts b (omega (arith, big)) (λ t. cc (t, is)))
          (λ u. inl (above_split st b fits.parts big (λ t. cc (t, is)))) in
      (
        update st b free,
        flip-Fits c st s l q fits below inside free (s.free (suc l) ++ (k ∷ []))
            (ap not (sym (ap is_free is))) parts
            (AreBlocks-append c l (s.free (suc l)) (k ∷ []) (fits.blocks l below)
              ((q, inside, refl), tt))
            (counts q
              ∙ omega (
                arith,
                fits.lists l q below inside,
                ap (λ t. one_if (is_free t)) is,
                ap one_if (==_self k),
              ))
            (λ r bound other.
              counts r ∙ omega (arith, ap one_if (other_block c ba power small l q r other))),
        ap is_used (update_self st b free),
        λ m h. ap is_used (update_ne st b m free h),
      )

  -- The block and its buddy, which is free, become their parent, which is used.
  pub merge-Fits :
      (st : ℕ → Status) (s : Blocks) (l q : ℕ)
      → suc l ≤ c
      → q < 2 ^ suc l
      → Fits c st s
      → st (2 ^ suc l + q) ≡ used
      → is_free (st (2 ^ suc l + buddy_of q)) ≡ true
      → Fits c
          (update
            (update (update st (2 ^ suc l + q) absent) (2 ^ suc l + buddy_of q) absent)
            (2 ^ l + q / 2)
            used)
          (bit_toggle
            (2 ^ l + q / 2 - 1)
            (with_free (suc l) (list_remove (buddy_of q * 2 ^ (c - suc l)) (s.free (suc l))) s))
  unfolding AreParts
  merge-Fits st s l q below inside fits is buddy_free =
      let b : ℕ = 2 ^ suc l + q in
      let d : ℕ = 2 ^ suc l + buddy_of q in
      let p : ℕ = 2 ^ l + q / 2 in
      let k : ℕ = buddy_of q * 2 ^ (c - suc l) in
      let big : 2 ≤ b = omega (arith, pow-suc 2 l, one-le-pow l 2) in
      let big' : 2 ≤ d = omega (arith, pow-suc 2 l, one-le-pow l 2) in
      let is_d : st d ≡ free = one_free (st d) buddy_free in
      let apart : d ≢ b = λ t. buddy_of-ne q (omega (arith, t)) in
      let st1 = update st b absent in
      let parts1 : AreParts st1 =
        AreParts-update st b absent fits.parts (omega (arith, big))
          (λ n. fits.parts b (omega (arith, big)) (λ t. cc (t, is))) (λ u. inr refl) in
      let fits1 : Fits c st1 s = still-Fits c st s b absent fits (sym (ap is_free is)) parts1 in
      let d1 : st1 d ≡ free = update_ne st b d absent apart ∙ is_d in
      let st2 = update st1 d absent in
      let parts2 : AreParts st2 =
        AreParts-update st1 d absent parts1 (omega (arith, big'))
          (λ n. parts1 d (omega (arith, big')) (λ t. cc (t, d1))) (λ u. inr refl) in
      let within = buddy_of-below l q inside in
      let was_one : count k (s.free (suc l)) ≡ 1 =
        fits.lists l (buddy_of q) below within ∙ ap (λ t. one_if (is_free t)) is_d in
      let fits2 : Fits c st2 (
          bit_toggle (2 ^ l + buddy_of q / 2 - 1)
            (with_free (suc l) (list_remove k (s.free (suc l))) s)) =
        flip-Fits c st1 s l (buddy_of q) fits1 below within absent (list_remove k (s.free (suc l)))
          (ap not (sym (ap is_free d1))) parts2
          (AreBlocks-list_remove c l k (s.free (suc l)) (fits.blocks l below))
          (none_left k (s.free (suc l)) was_one)
          (λ r bound other.
            others_left k (r * 2 ^ (c - suc l)) (s.free (suc l))
              (other_block c ba power small l (buddy_of q) r other)) in
      let is_p : st2 p ≡ split =
        update_ne st1 d p absent (λ t. omega (arith, t, pow-suc 2 l, one-le-pow l 2))
        ∙ update_ne st b p absent (λ t. omega (arith, t, pow-suc 2 l, one-le-pow l 2))
        ∙ ap st (sym (half_of l q))
        ∙ above_split st b fits.parts big (λ t. cc (t, is)) in
      let gone_d : st2 d ≡ absent = update_self st1 d absent in
      let gone_b : st2 b ≡ absent =
        update_ne st1 d b absent (λ t. apart (sym t)) ∙ update_self st b absent in
      let parts3 : AreParts (update st2 p used) =
        AreParts-update st2 p used parts2 (omega (arith, one-le-pow l 2))
          (λ n. elim (ℕ_discrete (q % 2) 0) [
            | yes even ↦ (
              ap st2 (omega (arith, pow-suc 2 l, even)) ∙ gone_b,
              ap st2 (omega (arith, pow-suc 2 l, even, buddy_of-even q even)) ∙ gone_d,
            )
            | no odd ↦ (
              ap st2 (omega (arith, pow-suc 2 l, odd, buddy_of-odd q odd)) ∙ gone_d,
              ap st2 (omega (arith, pow-suc 2 l, odd)) ∙ gone_b,
            )
          ])
          (λ u. inl (above_split st2 p parts2 u (λ t. cc (t, is_p)))) in
      still-Fits c st2
        (bit_toggle (2 ^ l + q / 2 - 1) (with_free (suc l) (list_remove k (s.free (suc l))) s)) p
        used
        (subst
          (λ i. Fits c st2 (bit_toggle i (with_free (suc l) (list_remove k (s.free (suc l))) s)))
          (ap (λ (t : ℕ). 2 ^ l + t - 1) (buddy_of-half q)) fits2)
        (sym (ap is_free is_p)) parts3
