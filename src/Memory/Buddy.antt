-- ===== src/Memory/Buddy.antt =====
-- The arithmetic of the buddy allocator (src/datastructures/buddy.c): the blocks of a level, their
-- numbers, and which two blocks are buddies. Level 0 is the whole buffer.
pub mod Levels
pub mod Pairs
pub mod Blocks
mod Tests
use tcengine.Base.{ℕ, ◌+◌, ◌-◌, ◌/◌, ◌^◌, bit_and, max, ltb, ◌==◌, if◌then◌else◌}
use tcengine.Math.{u32, next_power_of_2, log2_32}

pub record Buddy : Type 0 where
  pub cap : ℕ
  pub min_size : ℕ
  pub nr_levels : ℕ

-- MIN_BUDDY_SIZE.
abbrev pub min_buddy_size : ℕ
min_buddy_size = 16

-- The levels down to a smallest block.
pub levels_of : (size min_size : ℕ) → Buddy
levels_of size min_size = record {
  cap = size;
  min_size = min_size;
  nr_levels = log2_32 (u32 (size / min_size)) + 1;
}

-- The levels that buddy_create makes.
pub with_levels : (size min_size : ℕ) → Buddy
with_levels size min_size = levels_of size (max min_buddy_size min_size)

pub size_at_level : Buddy → (level : ℕ) → ℕ
size_at_level ba level = u32 (ba.cap / 2 ^ level)

pub block_index : Buddy → (offset level : ℕ) → ℕ
block_index ba offset level = u32 (2 ^ level + offset / size_at_level ba level - 1)

-- The result is an int32_t, here by its 32 bits.
pub level_at_size : Buddy → (size : ℕ) → ℕ
level_at_size ba size =
    if ltb size ba.min_size
    then ba.nr_levels - 1
    else u32 (ba.nr_levels + 2 ^ 32 - log2_32 (next_power_of_2 size / ba.min_size) - 1)

-- `offset & ~(size - 1)`; the size of a block is not 0.
pub aligned : (offset size : ℕ) → ℕ
aligned offset size = bit_and offset (u32 (2 ^ 32 - size))

pub buddy_offset : Buddy → (offset level : ℕ) → ℕ
buddy_offset ba offset level =
    let size = size_at_level ba level in
    if bit_and (block_index ba offset level) 1 == 1
    then u32 (aligned offset size + size)
    else u32 (aligned offset size + 2 ^ 32 - size)
