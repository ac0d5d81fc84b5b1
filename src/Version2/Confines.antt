-- ===== src/Version2/Confines.antt =====
-- The sandbox of dir_manage_ver2/manage_dir.c.
pub mod Commands
pub mod Streams
pub mod Main
