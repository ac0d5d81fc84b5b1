-- ===== src/Shell.antt =====
-- custom_shell/: the sandboxed shell.
pub mod Paths
pub mod System
pub mod Commands
pub mod Streams
pub mod Chmod
pub mod Ls
pub mod Process
pub mod ProcStat
pub mod Ps
pub mod Main
pub mod Confines
