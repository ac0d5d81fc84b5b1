-- ===== src/Tests/Modes.antt =====
-- Inputs for the theorems on modes: custom_shell/cmd_chmod.c and cmd_ls.c.
use system_sw_gui_project.Prelude.{◌≡◌, refl, true, ◌&&◌, inl, ◌==◌, if◌then◌else◌, codes, arith}
use system_sw_gui_project.Libc.Numbers.{strtol_octal, to_mode}
use system_sw_gui_project.Libc.Bits.{bit}
use system_sw_gui_project.Shell.Chmod.{
  chmod_format, matches_octal, symbolic_mode, read_who, apply_op, apply_what, change_mode,
}
use system_sw_gui_project.Shell.Chmod.Letters.{names_who, what_letter, contains}
use system_sw_gui_project.Shell.Chmod.Symbolic.{chmod_format-bit}
use system_sw_gui_project.Shell.Ls.{permissions, has}
use system_sw_gui_project.Shell.Ls.Permissions.{read_permissions, read_permissions-permissions}

octal_run : chmod_format true (codes "0755") 0o644 ≡ 0o755
unfolding chmod_format matches_octal strtol_octal to_mode
octal_run = refl

symbolic_run : chmod_format true (codes "go-rx") 0o755 ≡ 0o700
unfolding chmod_format matches_octal symbolic_mode read_who apply_op apply_what change_mode
symbolic_run = refl

chmod_format-bit_example : bit 4 (chmod_format true (codes "g+w") 0o644) ≡ (
    if true
    then (if names_who 4 (codes "g") && contains (what_letter 4) (codes "w")
        then (if b'+' == b'+' then 1 else 0)
        else bit 4 0o644)
    else 0)
chmod_format-bit_example =
    chmod_format-bit true (codes "g") (codes "w") b'+' 0o644 4 (refl, tt) (inl refl) (refl, tt)
      (omega arith)

setuid_run : permissions 0o4755 ≡ codes "rwsr-xr-x"
unfolding permissions has
setuid_run = refl

read_permissions-permissions_example : read_permissions (permissions 0o104755) ≡ 0o4755
read_permissions-permissions_example = read_permissions-permissions 0o104755
