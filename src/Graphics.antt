-- ===== src/Graphics.antt =====
-- The parts of src/graphics that compute and call no graphics interface.
pub mod Reflection
