-- ===== src/Version2/Equal.antt =====
-- What the two versions of the shell compute alike: paths, modes, and whole commands.
pub mod Paths
pub mod Modes
pub mod Commands
