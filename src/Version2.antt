-- ===== src/Version2.antt =====
-- dir_manage_ver2/manage_dir.c: the shell before it was split into files. It makes the same calls,
-- so it has the same parameter System.
pub mod Paths
pub mod Commands
pub mod Streams
pub mod Chmod
pub mod Ls
pub mod Main
pub mod Equal
pub mod Confines
