-- ===== src/Memory/Buddy/Blocks/Tests.antt =====
-- A buffer of 1 KB with blocks of 64 bytes at least, whose fields end at offset 200.
use tcengine.Base.{◌≡◌, refl, arith, some, List, [], ◌∷◌}
use tcengine.Memory.Buddy.{Buddy, size_at_level, block_index, aligned, buddy_offset}
use tcengine.Memory.Buddy.Blocks.{
  buddy_create, reserve, reserve_level, buddy_alloc_block, take_block, bit_toggle,
}
use tcengine.Memory.Buddy.Blocks.History.{Op, give_back, run, Levels, NoOverlap}
use tcengine.Memory.Buddy.Blocks.Disjoint.{AreWithin, blocks_disjoint}

abbrev kilobyte : Buddy
kilobyte = record { cap = 1024; min_size = 64; nr_levels = 5 }

abbrev ops : List Op
ops =
    Op.take_block 4
    ∷ Op.take_block 2
    ∷ Op.take_block 4
    ∷ give_back 2
    ∷ Op.take_block 3
    ∷ give_back 1
    ∷ []

ops-Levels : Levels 10 ops
unfolding Levels
ops-Levels = (omega arith, (omega arith, (omega arith, (omega arith, tt))))

-- The first free block of 256 bytes stands behind the fields.
blocks_run : (buddy_alloc_block kilobyte 2 (buddy_create kilobyte 200)).1 ≡ some 256
unfolding buddy_create reserve reserve_level buddy_alloc_block take_block buddy_offset block_index
    size_at_level aligned bit_toggle
blocks_run = refl

blocks_disjoint_example :
    NoOverlap 10 (run kilobyte ops (buddy_create kilobyte 200) []).1
    × AreWithin 10 (run kilobyte ops (buddy_create kilobyte 200) []).1
blocks_disjoint_example =
    blocks_disjoint 10 kilobyte refl (omega arith) 200 ops (omega arith) (omega arith) ops-Levels
