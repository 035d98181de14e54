-- ===== src/Memory.antt =====
-- The allocators of src/datastructures and include/private/memory.h.
pub mod Pool
pub mod Resource
pub mod Temp
pub mod Buddy
