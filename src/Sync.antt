-- ===== src/Sync.antt =====
-- The concurrent containers of src/datastructures, on which the job system rests, and the channels
-- of src/fiber.c.
pub mod LfQueue
pub mod LfLifo
pub mod Channel
pub mod Future
pub mod Jobs
pub mod Fibers
