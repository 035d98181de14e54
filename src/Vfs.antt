-- ===== src/Vfs.antt =====
-- The parts of src/vfs.c that need no system: paths, memory streams, and zip files over what minizip
-- and the system answer.
pub mod Path
pub mod Mstream
pub mod Zip
