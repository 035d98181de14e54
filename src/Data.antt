-- ===== src/Data.antt =====
-- The data structures of src/datastructures that are not for one part of the engine alone.
pub mod List
pub mod Slist
