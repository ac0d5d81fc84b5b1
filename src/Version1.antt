-- ===== src/Version1.antt =====
-- dir_manage_ver1/manage_dir.c, the first version of the shell. Where it has the text of the second
-- version, the definitions of that stand for it: the loop of convert_to_absolute, is_valid_path,
-- and what the commands do with an absolute path.
pub mod Commands
pub mod Main
pub mod Confines
