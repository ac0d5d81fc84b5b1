-- ===== src/Shell/Chmod.antt =====
-- custom_shell/cmd_chmod.c. mode_t is an unsigned 32-bit number.
pub mod Letters
pub mod Loops
pub mod Symbolic
use Prim.Native.Nat.{bit_and, bit_or}
use system_sw_gui_project.Prelude.{
  ℕ, ◌-◌, ◌^◌, Bool, true, false, ◌&&◌, ◌||◌, Option, none, some, List, [], ◌∷◌, ◌==◌,
  if◌then◌else◌, Text,
}
use system_sw_gui_project.Libc.Numbers.{strtol_octal, to_mode, is_octal}
use system_sw_gui_project.Run.{Run, call, ◌>>=◌, skip}
use system_sw_gui_project.Shell.Paths.{is_valid_path}
use system_sw_gui_project.Shell.Paths.Bounds.{bufsiz}
use system_sw_gui_project.Shell.System.{System, say, complain, print, perror, convert}
use system_sw_gui_project.Shell.Commands.{refusal}

-- (mode_t)-1
abbrev pub bad_mode : ℕ
bad_mode = 2 ^ 32 - 1

-- mode & ~bits
abbrev pub clear_bits : ℕ → ℕ → ℕ
clear_bits mode bits = bit_and mode (2 ^ 32 - 1 - bits)

-- The regular expression ^[0-7]+$
unfoldable pub all_octal : Text → Bool
all_octal [] = true
all_octal (c ∷ s) = is_octal c && all_octal s

unfoldable pub matches_octal : Text → Bool
unfolding all_octal
matches_octal [] = false
matches_octal (c ∷ s) = is_octal c && all_octal s

-- S_IRUSR | S_IWUSR | S_IXUSR and so on.
abbrev pub who_bits : ℕ → ℕ
who_bits c = if c == b'u' then 0o700 else if c == b'g' then 0o070 else 0o007

abbrev pub is_who : ℕ → Bool
is_who c = c == b'u' || c == b'g' || c == b'o'

-- The first loop: the permission gathered, and the text from mode_str[i] on.
unfoldable pub read_who : ℕ → Text → ℕ × Text
read_who permission [] = (permission, [])
read_who permission (c ∷ s) =
    if is_who c then read_who (bit_or permission (who_bits c)) s else (permission, c ∷ s)

-- S_IRUSR | S_IRGRP | S_IROTH and so on.
abbrev pub what_bits : ℕ → ℕ
what_bits c = if c == b'r' then 0o444 else if c == b'w' then 0o222 else 0o111

abbrev pub is_what : ℕ → Bool
is_what c = c == b'r' || c == b'w' || c == b'x'

unfoldable pub change_mode : ℕ → ℕ → ℕ → ℕ
change_mode op mode bits =
    let added = if op == b'+' then bit_or mode bits else mode in
    if op == b'-' then clear_bits added bits else added

-- The last loop.
unfoldable pub apply_what : ℕ → ℕ → ℕ → Text → ℕ
apply_what permission op mode [] = mode
apply_what permission op mode (c ∷ s) =
    let rest =
      apply_what permission op (change_mode op mode (bit_and permission (what_bits c))) s in
    if is_what c then rest else bad_mode

-- From `op = mode_str[i++]` on.
unfoldable pub apply_op : ℕ → ℕ → Text → ℕ
apply_op permission mode [] = bad_mode
apply_op permission mode (op ∷ s) =
    if op == b'+' || op == b'-' then apply_what permission op mode s else bad_mode

unfoldable pub symbolic_mode : Text → ℕ → ℕ
symbolic_mode mode_str mode =
    let (permission, rest) = read_who 0 mode_str in
    apply_op (if permission == 0 then 0o777 else permission) mode rest

-- `compiled` is whether regcomp succeeded.
unfoldable pub chmod_format : Bool → Text → ℕ → ℕ
chmod_format compiled mode_str current_mode =
    if compiled
    then (if matches_octal mode_str
        then to_mode (strtol_octal mode_str)
        else symbolic_mode mode_str current_mode)
    else 0

module _ (S : System) where
  unfoldable pub chmod_to : Text → ℕ → Run S.State (Unit {0})
  chmod_to absolute mode =
      if mode == bad_mode
      then say S "Invalid mode format\n"
      else if is_valid_path absolute
      then (do
        success ← call (S.chmod absolute mode)
        if success then skip else print S (perror absolute))
      else say S refusal

  unfoldable pub chmod_known : Text → Text → Option ℕ → Run S.State (Unit {0})
  unfolding chmod_to
  chmod_known absolute mode_str none = complain S "stat"
  chmod_known absolute mode_str (some st_mode) = do
    compiled ← call S.regcomp
    chmod_to absolute (chmod_format compiled mode_str st_mode)

  unfoldable pub chmod_with : List Text → Option Text → Run S.State (Unit {0})
  unfolding chmod_known
  chmod_with argv none = complain S "malloc"
  chmod_with (_ ∷ mode_str ∷ path ∷ []) (some block) = do
    absolute ← convert S block path
    found ← call (S.stat_mode absolute)
    chmod_known absolute mode_str found
  chmod_with argv (some block) = say S "usage : chmod <접근권한: 8진수><파일명>"

  unfoldable pub cmd_chmod : List Text → Run S.State (Unit {0})
  unfolding chmod_with
  cmd_chmod argv = do block ← call (S.malloc bufsiz); chmod_with argv block
