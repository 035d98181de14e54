-- ===== src/Memory/Buddy/Tests.antt =====
-- The buddy arithmetic for a buffer of 1 MB with blocks of 64 bytes at least.
use tcengine.Base.{ℕ, ◌+◌, ◌*◌, ◌^◌, ◌≤◌, ◌<◌, ◌≡◌, ◌⊎◌, arith}
use tcengine.Memory.Buddy.{with_levels, size_at_level, level_at_size}
use tcengine.Memory.Buddy.Levels.{level_at_size-size_at_level}

level_at_size-size_at_level_example :
    (level : ℕ) × (level_at_size (with_levels (2 ^ 20) (2 ^ 6)) 100 ≡ level)
    × (level < (with_levels (2 ^ 20) (2 ^ 6)).nr_levels)
    × (100 ≤ size_at_level (with_levels (2 ^ 20) (2 ^ 6)) level)
    × ((level + 1 ≡ (with_levels (2 ^ 20) (2 ^ 6)).nr_levels)
        ⊎ (size_at_level (with_levels (2 ^ 20) (2 ^ 6)) level < 2 * 100))
level_at_size-size_at_level_example =
    level_at_size-size_at_level 6 20 100 (omega arith) (omega arith) (omega arith) (omega arith)
      (omega arith)
