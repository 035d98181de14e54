-- ===== src/Memory/Buddy/Blocks/Disjoint.antt =====
-- The invariant of a history of calls, and what it says of the blocks.
use native.Mathlib.Nat.{mul-le-mul_right, suc-mul}
use mathlib.Core.Path.{subst}
use tcengine.Base.{
  ℕ, ◌+◌, ◌-◌, ◌^◌, ◌≤◌, ◌<◌, ◌≡◌, refl, sym, ap, arith, Option, none, some, List, [], ◌∷◌,
  get_elem?,
}
use tcengine.Math.Align.{split as pow_split}
use tcengine.Memory.Buddy.{Buddy}
use tcengine.Memory.Buddy.Blocks.{Blocks, buddy_create, buddy_alloc_block, buddy_free_block}
use tcengine.Memory.Buddy.Blocks.Create.{buddy_create-Fits}
use tcengine.Memory.Buddy.Blocks.Tree.{Status, Fits}
use tcengine.Memory.Buddy.Blocks.Splits.{Allocates, buddy_alloc_block-Allocates}
use tcengine.Memory.Buddy.Blocks.Frees.{buddy_free_block-Frees}
use tcengine.Memory.Buddy.Blocks.History.{
  Op, take_block, give_back, remove_at, after_take, after_give, run, Levels, IsApart, NoOverlap,
  AreHeld, new_block, stay_held, NoOverlap-get, AreHeld-get,
}

-- The blocks of the user, with a tree that the allocator fits.
abbrev Owns : ℕ → Blocks → List (ℕ × ℕ) → Type 0
Owns c s os = (st : ℕ → Status) × Fits c st s × AreHeld c st os × NoOverlap c os

-- A block ends within the buffer of 2^c bytes.
unfoldable pub AreWithin : ℕ → List (ℕ × ℕ) → Type 0
AreWithin c [] = Unit
AreWithin c (o ∷ os) = (o.0 + 2 ^ (c - o.1) ≤ 2 ^ c) × AreWithin c os

held-AreWithin : (c : ℕ) (st : ℕ → Status) (os : List (ℕ × ℕ)) → AreHeld c st os → AreWithin c os
unfolding AreWithin
held-AreWithin c st [] h = tt
held-AreWithin c st ((x, l) ∷ os) ((q, below, inside, at, is), h) = (
  omega (
    arith,
    at,
    suc-mul q (2 ^ (c - l)),
    mul-le-mul_right (2 ^ (c - l)) inside,
    pow_split l (c - l),
    ap (λ (t : ℕ). 2 ^ t) (levels l c below),
  ),
  held-AreWithin c st os h,
)
  where
    levels : (l c : ℕ) → l ≤ c → l + (c - l) ≡ c
    levels l c h = omega (arith, h)

module _ (c : ℕ) (ba : Buddy) (power : ba.cap ≡ 2 ^ c) (small : c ≤ 31) where
  take-Owns :
      (st : ℕ → Status) (level : ℕ) (r : Blocks × Option ℕ) (os : List (ℕ × ℕ))
      → level ≤ c
      → Allocates c level st r
      → AreHeld c st os
      → NoOverlap c os
      → Owns c (after_take level r os).0 (after_take level r os).1
  unfolding after_take NoOverlap
  take-Owns st level (s, none) os below fits held apart = (st, fits, held, apart)
  take-Owns st level (s, some x) os below (after, q, pos, inside, at, fits, is, was, same) held
        apart =
      let (new, held') = new_block c level q st after os below fits.parts is was same held in
      (
        after,
        fits,
        ((q, below, inside, at, is), held'),
        (subst (λ y. IsApart c (y, level) os) (sym at) new, apart),
      )

  give-Owns :
      (o : Option (ℕ × ℕ)) (i : ℕ) (s : Blocks) (os : List (ℕ × ℕ))
      → get_elem? os i ≡ o
      → Owns c s os
      → Owns c (after_give ba o i s os).0 (after_give ba o i s os).1
  unfolding after_give
  give-Owns none i s os e owns = owns
  give-Owns (some (x, level)) i s os e (st, fits, held, apart) =
      let ((q, below, inside, at, is), held') = AreHeld-get c st (x, level) os i e held in
      let (first, apart') = NoOverlap-get c (x, level) os i e apart in
      let (after, fits', gone, same) =
        buddy_free_block-Frees c ba power small level q st s below inside fits is in
      (
        after,
        subst (λ y. Fits c after (buddy_free_block ba y level s)) (sym at) fits',
        stay_held c level q st after (remove_at os i) inside same
            (subst (λ y. IsApart c (y, level) (remove_at os i)) at first) held',
        apart',
      )

  run-Owns :
      (ops : List Op) (s : Blocks) (os : List (ℕ × ℕ))
      → Levels c ops
      → Owns c s os
      → Owns c (run ba ops s os).0 (run ba ops s os).1
  unfolding run Levels
  run-Owns [] s os l owns = owns
  run-Owns (take_block level ∷ ops) s os (below, l) (st, fits, held, apart) =
      let r = after_take level (buddy_alloc_block ba level s) os in
      run-Owns ops r.0 r.1 l (
        take-Owns st level (buddy_alloc_block ba level s) os below
          (buddy_alloc_block-Allocates c ba power small st s level fits below) held apart)
  run-Owns (give_back i ∷ ops) s os l owns =
      let r = after_give ba (get_elem? os i) i s os in
      run-Owns ops r.0 r.1 l (give-Owns (get_elem? os i) i s os refl owns)

  -- In a buffer of 2^c bytes, c at most 31, in which the fields of buddy_create end within the
  -- buffer, the blocks that buddy_alloc_block gave and that buddy_free_block did not get back
  -- neither overlap nor leave the buffer, after any calls for levels of the buffer in any order.
  pub blocks_disjoint :
      (offset : ℕ) (ops : List Op)
      → ba.nr_levels ≤ c + 2
      → offset < 2 ^ c
      → Levels c ops
      → NoOverlap c (run ba ops (buddy_create ba offset) []).1
        × AreWithin c (run ba ops (buddy_create ba offset) []).1
  unfolding NoOverlap
  blocks_disjoint offset ops levels inside l =
      let (st, fits) = buddy_create-Fits c ba power small offset levels inside in
      let (after, fits', held, apart) =
        run-Owns ops (buddy_create ba offset) [] l (st, fits, tt, tt) in
      (apart, held-AreWithin c after (run ba ops (buddy_create ba offset) []).1 held)
