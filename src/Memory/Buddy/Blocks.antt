-- ===== src/Memory/Buddy/Blocks.antt =====
-- The blocks of the buddy allocator of src/datastructures/buddy.c: splitting and merging them. The lists
-- of free blocks and the bits are taken by their contracts: a block is its offset in the buffer.
pub mod Tree
pub mod Flips
pub mod Halves
pub mod Splits
pub mod Toggles
pub mod Merges
pub mod Frees
pub mod Ranges
pub mod History
pub mod Disjoint
pub mod Create
mod Tests
use tcengine.Base.{
  ℕ, zero, suc, ◌+◌, min, Bool, true, false, not, Option, none, some, List, [], ◌∷◌, ◌++◌, ◌==◌,
  if◌then◌else◌, ltb, ◌-◌, update,
}
use tcengine.Memory.Buddy.{Buddy, size_at_level, block_index, buddy_offset}

-- `free_lists` by level, and `merge_bits`.
pub record Blocks : Type 0 where
  pub free : ℕ → List ℕ
  pub bits : ℕ → Bool

-- `bit_toggle`, by its contract: one bit changes.
pub bit_toggle : ℕ → Blocks → Blocks
bit_toggle i s = record s { bits = update s.bits i (not (s.bits i)) }

-- `list_remove`, by its contract, of a block that is on the list of its level.
pub list_remove : ℕ → List ℕ → List ℕ
list_remove x [] = []
list_remove x (y ∷ ys) = if y == x then ys else y ∷ list_remove x ys

abbrev pub with_free : ℕ → List ℕ → Blocks → Blocks
with_free level xs s = record s { free = update s.free level xs }

-- `buddy_alloc_block` at level `suc l`: the list of the level, and what the level above gives.
pub take_block : Buddy → (l : ℕ) → List ℕ → Blocks → Blocks × Option ℕ → Blocks × Option ℕ
take_block ba l (x ∷ xs) s above =
    (bit_toggle (block_index ba x l) (with_free (suc l) xs s), some x)
take_block ba l [] s (s', none) = (s', none)
take_block ba l [] s (s', some x) =
    let right = x + size_at_level ba (suc l) in
    (
      bit_toggle (block_index ba x l) (with_free (suc l) (s'.free (suc l) ++ (right ∷ [])) s'),
      some x,
    )

pub buddy_alloc_block : Buddy → (level : ℕ) → Blocks → Blocks × Option ℕ
buddy_alloc_block ba zero s = (s, none)
buddy_alloc_block ba (suc l) s = take_block ba l (s.free (suc l)) s (buddy_alloc_block ba l s)

pub buddy_free_block : Buddy → (offset level : ℕ) → Blocks → Blocks
buddy_free_block ba offset zero s = s
buddy_free_block ba offset (suc l) s =
    let index = block_index ba offset l in
    let buddy = buddy_offset ba offset (suc l) in
    let merged =
      buddy_free_block ba (min offset buddy) l
        (with_free (suc l) (list_remove buddy (s.free (suc l))) s) in
    bit_toggle index
      (if s.bits index then merged else with_free (suc l) (s.free (suc l) ++ (offset ∷ [])) s)

-- One round of the loop of buddy_create, at level `suc l`; the fields stand before `offset`.
pub reserve_level : Buddy → (offset l : ℕ) → Blocks → Blocks
reserve_level ba offset l s =
    let buddy = buddy_offset ba offset (suc l) in
    if ltb offset buddy
    then bit_toggle (block_index ba offset l) (with_free (suc l) (s.free (suc l) ++ (buddy ∷ [])) s)
    else s

-- The first rounds of the loop.
pub reserve : Buddy → (offset rounds : ℕ) → Blocks → Blocks
reserve ba offset zero s = s
reserve ba offset (suc l) s = reserve_level ba offset l (reserve ba offset l s)

-- The lists and bits that buddy_create makes; the loop stops before the last level.
pub buddy_create : Buddy → (offset : ℕ) → Blocks
buddy_create ba offset =
    reserve ba offset (ba.nr_levels - 2) (record { free = λ level. []; bits = λ i. false })
