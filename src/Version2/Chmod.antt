-- ===== src/Version2/Chmod.antt =====
-- chmod_format and cmd_chmod of dir_manage_ver2/manage_dir.c, with the index `i` into mode_str.
use Prim.Native.Nat.{bit_and, bit_or}
use system_sw_gui_project.Prelude.{
  ℕ, zero, suc, ◌+◌, ◌-◌, ◌^◌, Bool, true, false, not, ◌&&◌, ◌||◌, Option, none, some, List, [],
  ◌∷◌, ◌==◌, if◌then◌else◌, Text, length,
}
use system_sw_gui_project.Libc.Numbers.{strtol_octal, to_mode, is_octal}
use system_sw_gui_project.Run.{Run, call, ◌>>=◌}
use system_sw_gui_project.Shell.Paths.Bounds.{bufsiz}
use system_sw_gui_project.Shell.System.{System, say, complain}
use system_sw_gui_project.Version2.Paths.{convert}
use system_sw_gui_project.Version2.Commands.{change_path}

-- mode_str[i], with the zero at the end.
unfoldable pub char_at : Text → ℕ → ℕ
char_at [] i = 0
char_at (c ∷ s) zero = c
char_at (c ∷ s) (suc i) = char_at s i

-- (mode_t)-1
abbrev pub invalid : ℕ
invalid = 2 ^ 32 - 1

-- ^[0-7]+$, from the second character on.
unfoldable pub octal_digits : Text → Bool
octal_digits [] = true
octal_digits (c ∷ s) = is_octal c && octal_digits s

unfoldable pub is_octal_mode : Text → Bool
unfolding octal_digits
is_octal_mode [] = false
is_octal_mode (c ∷ s) = is_octal c && octal_digits s

-- The bits of u, g and o, and of r, w and x.
abbrev pub class_bits : ℕ → ℕ
class_bits c = if c == b'u' then 0o700 else if c == b'g' then 0o070 else 0o007

abbrev pub kind_bits : ℕ → ℕ
kind_bits c = if c == b'r' then 0o444 else if c == b'w' then 0o222 else 0o111

-- The first loop: `i` and `permission` behind it.
unfoldable pub class_loop : ℕ → Text → ℕ → ℕ → ℕ × ℕ
class_loop zero mode_str i permission = (i, permission)
class_loop (suc fuel) mode_str i permission =
    let c = char_at mode_str i in
    let next = class_loop fuel mode_str (i + 1) (bit_or permission (class_bits c)) in
    if not (c == 0) && (c == b'u' || c == b'g' || c == b'o') then next else (i, permission)

-- mode |= bits for a plus, mode &= ~bits for a minus.
unfoldable pub changed : ℕ → ℕ → ℕ → ℕ
changed op mode bits =
    let set = if op == b'+' then bit_or mode bits else mode in
    if op == b'-' then bit_and set (2 ^ 32 - 1 - bits) else set

-- The last loop.
unfoldable pub kind_loop : ℕ → Text → ℕ → ℕ → ℕ → ℕ → ℕ
kind_loop zero mode_str i permission op mode = mode
kind_loop (suc fuel) mode_str i permission op mode =
    let c = char_at mode_str i in
    let next =
      kind_loop fuel mode_str (i + 1) permission op
        (changed op mode (bit_and permission (kind_bits c))) in
    if c == 0 then mode else if c == b'r' || c == b'w' || c == b'x' then next else invalid

-- From the op on. The loops make at most one round for each character.
unfoldable pub from_op : Text → ℕ → ℕ → ℕ → ℕ
unfolding kind_loop changed
from_op mode_str i permission mode =
    let op = char_at mode_str i in
    if op == b'+' || op == b'-'
    then kind_loop (suc (length mode_str)) mode_str (i + 1) permission op mode
    else invalid

unfoldable pub chmod_format : Bool → Text → ℕ → ℕ
unfolding from_op class_loop is_octal_mode
chmod_format compiled mode_str current_mode =
    let (i, permission) = class_loop (suc (length mode_str)) mode_str 0 0 in
    let mode = from_op mode_str i (if permission == 0 then 0o777 else permission) current_mode in
    if compiled
    then (if is_octal_mode mode_str then to_mode (strtol_octal mode_str) else mode)
    else 0

module _ (S : System) where
  unfoldable pub change_to : Text → ℕ → Run S.State (Unit {0})
  change_to absolute mode =
      if mode == invalid
      then say S "Invalid mode format\n"
      else change_path S (λ path. S.chmod path mode) absolute

  unfoldable pub with_mode : Text → Text → Option ℕ → Run S.State (Unit {0})
  unfolding change_to chmod_format
  with_mode absolute mode_str none = complain S "stat"
  with_mode absolute mode_str (some st_mode) = do
    compiled ← call S.regcomp
    change_to absolute (chmod_format compiled mode_str st_mode)

  unfoldable pub chmod_with : List Text → Option Text → Run S.State (Unit {0})
  unfolding with_mode
  chmod_with argv none = complain S "malloc"
  chmod_with (_ ∷ mode_str ∷ path ∷ []) (some block) = do
    absolute ← convert S block path
    found ← call (S.stat_mode absolute)
    with_mode absolute mode_str found
  chmod_with argv (some block) = say S "usage : chmod <접근권한: 8진수><파일명>"

  unfoldable pub cmd_chmod : List Text → Run S.State (Unit {0})
  unfolding chmod_with
  cmd_chmod argv = do block ← call (S.malloc bufsiz); chmod_with argv block
