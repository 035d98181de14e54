-- ===== src/Memory/Buddy/Blocks/Halves.antt =====
-- Offsets, numbers and bits of blocks, and what the tree becomes when a block is split.
use native.Mathlib.Nat.{pow-suc, one-le-pow, pow-le-pow_right}
use mathlib.Core.Path.{subst}
use tcengine.Base.{
  ℕ, suc, ◌+◌, ◌-◌, ◌*◌, ◌/◌, ◌^◌, ◌≤◌, ◌<◌, ◌≡◌, ◌≢◌, inl, refl, sym, ap, ◌∙◌, arith,
}
use tcengine.Base.{
  Bool, true, false, not, [], ◌∷◌, ◌++◌, ◌==◌, ==_self, ==_false, if◌then◌else◌, update,
}
use tcengine.Memory.Buddy.{Buddy, block_index}
use tcengine.Memory.Buddy.Pairs.{same_block, parent, step}
use tcengine.Memory.Buddy.Blocks.{Blocks, bit_toggle, with_free}
use tcengine.Memory.Buddy.Blocks.Tree.{
  Status, absent, free, split, used, is_free, count, count-append, AreBlocks, AreBlocks-append,
  Fits, AreParts,
}
use tcengine.Memory.Buddy.Blocks.Flips.{
  AreParts-update, update_self, update_ne, halves, still-Fits, flip-Fits, above_split,
}

abbrev pub one_if : Bool → ℕ
one_if t = if t then 1 else 0

pub one_free : (x : Status) → is_free x ≡ true → x ≡ free
one_free absent e = cc (e)
one_free free e = refl
one_free split e = cc (e)
one_free used e = cc (e)

module _ (c : ℕ) (ba : Buddy) (power : ba.cap ≡ 2 ^ c) (small : c ≤ 31) where
  -- The bit of a block's parent.
  pub parent_index :
      (l q : ℕ)
      → suc l ≤ c
      → q < 2 ^ suc l
      → block_index ba (q * 2 ^ (c - suc l)) l ≡ 2 ^ l + q / 2 - 1
  parent_index l q below inside =
      parent c ba power small l q below
      ∙ omega (
        arith,
        pow-suc 2 l,
        pow-le-pow_right {n = 2} (omega arith) {i = suc l} {j = 31} (omega arith),
      )

  -- Offsets tell the blocks of a level apart.
  pub other_block : (l q r : ℕ) → r ≢ q → (q * 2 ^ (c - suc l) == r * 2 ^ (c - suc l)) ≡ false
  other_block l q r h =
      ==_false (q * 2 ^ (c - suc l)) (r * 2 ^ (c - suc l))
        (λ e. h (sym (same_block q r (2 ^ (c - suc l)) (one-le-pow (c - suc l) 2 (omega arith)) e)))

  pub twice : (l p : ℕ) → suc l ≤ c → p * 2 ^ (c - l) ≡ 2 * p * 2 ^ (c - suc l)
  twice l p below =
      ap (λ (t : ℕ). p * 2 ^ t) (step c ba power small l below)
      ∙ omega (arith, ap (λ (t : ℕ). p * t) (pow-suc 2 (c - suc l)))

  -- A used block of level `l` is split, and its first half is used.
  pub halve :
      (st : ℕ → Status) (b : ℕ)
      → AreParts st
      → 0 < b
      → st b ≡ used
      → AreParts (update st b split)
        × AreParts (update (update st b split) (2 * b) used)
        × AreParts (update (update (update st b split) (2 * b) used) (2 * b + 1) free)
        × (update st b split (2 * b) ≡ absent)
        × (update (update st b split) (2 * b) used (2 * b + 1) ≡ absent)
  unfolding AreParts
  halve st b parts big is =
      let (gone1, gone2) = parts b (omega (arith, big)) (λ t. cc (t, is)) in
      let below1 = parts (2 * b) (omega (arith, big)) (λ t. cc (t, gone1)) in
      let below2 = parts (2 * b + 1) (omega (arith, big)) (λ t. cc (t, gone2)) in
      let st2 = update st b split in
      let parts2 : AreParts st2 =
        AreParts-update st b split parts (omega (arith, big)) (λ n. absurd (n refl))
          (λ u. inl (above_split st b parts u (λ t. cc (t, is)))) in
      let kept : (m : ℕ) → b < m → st2 m ≡ st m =
        λ m more. update_ne st b m split (λ t. omega (arith, t, more)) in
      let st3 = update st2 (2 * b) used in
      let is_split : st2 b ≡ split = update_self st b split in
      let parts3 : AreParts st3 =
        AreParts-update st2 (2 * b) used parts2 (omega (arith, big))
          (λ n. (
            kept (2 * (2 * b)) (omega (arith, big)) ∙ below1.0,
            kept (2 * (2 * b) + 1) (omega (arith, big)) ∙ below1.1,
          ))
          (λ u. inl (ap st2 (omega arith) ∙ is_split)) in
      let kept3 : (m : ℕ) → b < m → m ≢ 2 * b → st3 m ≡ st m =
        λ m more h. update_ne st2 (2 * b) m used h ∙ kept m more in
      (
        parts2,
        parts3,
        AreParts-update st3 (2 * b + 1) free parts3 (omega (arith, big))
            (λ n. (
              kept3 (2 * (2 * b + 1)) (omega (arith, big)) (λ t. omega (arith, t, big)) ∙ below2.0,
              kept3 (2 * (2 * b + 1) + 1) (omega (arith, big)) (λ t. omega (arith, t, big))
                  ∙ below2.1,
            ))
            (λ u. inl (
              ap st3 (omega arith)
              ∙ update_ne st2 (2 * b) b used (λ t. omega (arith, t, big))
              ∙ is_split)),
        kept (2 * b) (omega (arith, big)) ∙ gone1,
        kept3 (2 * b + 1) (omega (arith, big)) (λ t. omega (arith, t)) ∙ gone2,
      )

  -- The second half goes to the list of its level.
  pub split-Fits :
      (st : ℕ → Status) (s : Blocks) (l p : ℕ)
      → suc l ≤ c
      → p < 2 ^ l
      → Fits c st s
      → st (2 ^ l + p) ≡ used
      → Fits c
          (update
            (update (update st (2 ^ l + p) split) (2 * (2 ^ l + p)) used)
            (2 * (2 ^ l + p) + 1)
            free)
          (bit_toggle
            (2 ^ l + p - 1)
            (with_free (suc l) (s.free (suc l) ++ (((2 * p + 1) * 2 ^ (c - suc l)) ∷ [])) s))
  unfolding count AreBlocks
  split-Fits st s l p below inside fits is =
      let b : ℕ = 2 ^ l + p in
      let k : ℕ = (2 * p + 1) * 2 ^ (c - suc l) in
      let big : 0 < b = omega (arith, one-le-pow l 2) in
      let (parts2, parts3, parts4, gone1, gone2) = halve st b fits.parts big is in
      let st2 = update st b split in
      let st3 = update st2 (2 * b) used in
      let fits3 : Fits c st3 s =
        still-Fits c st2 s (2 * b) used
          (still-Fits c st s b split fits (sym (ap is_free is)) parts2) (sym (ap is_free gone1))
          parts3 in
      let within : 2 * p + 1 < 2 ^ suc l = omega (arith, pow-suc 2 l) in
      let b' : 2 ^ suc l + (2 * p + 1) ≡ 2 * b + 1 = omega (arith, halves l p) in
      let same : (x : Status) → update st3 (2 ^ suc l + (2 * p + 1)) x ≡ update st3 (2 * b + 1) x =
        λ x. ap (λ n. update st3 n x) b' in
      let counts : (r : ℕ)
          → count (r * 2 ^ (c - suc l)) (s.free (suc l) ++ (k ∷ []))
            ≡ count (r * 2 ^ (c - suc l)) (s.free (suc l)) + one_if (k == r * 2 ^ (c - suc l)) =
        λ r. count-append (r * 2 ^ (c - suc l)) (s.free (suc l)) (k ∷ []) ∙ omega arith in
      subst
        (λ i.
          Fits c (update st3 (2 * b + 1) free)
            (bit_toggle i (with_free (suc l) (s.free (suc l) ++ (k ∷ [])) s)))
        (omega arith)
        (subst
          (λ f. Fits c f (
            bit_toggle (2 ^ l + (2 * p + 1) / 2 - 1)
              (with_free (suc l) (s.free (suc l) ++ (k ∷ [])) s)))
          (same free)
          (flip-Fits c st3 s l (2 * p + 1) fits3 below within free (s.free (suc l) ++ (k ∷ []))
            (ap not (sym (ap is_free (ap st3 b' ∙ gone2))))
            (subst AreParts (sym (same free)) parts4)
            (AreBlocks-append c l (s.free (suc l)) (k ∷ []) (fits3.blocks l below)
              ((2 * p + 1, within, refl), tt))
            (counts (2 * p + 1)
              ∙ omega (
                arith,
                fits3.lists l (2 * p + 1) below within,
                ap (λ t. one_if (is_free t)) (ap st3 b' ∙ gone2),
                ap one_if (==_self k),
              ))
            (λ r bound other.
              counts r ∙ omega (arith, ap one_if (other_block l (2 * p + 1) r other)))))
