-- ===== src/Shell/Ls.antt =====
-- custom_shell/cmd_ls.c
pub mod Permissions
use Prim.Native.Nat.{bit_and}
use system_sw_gui_project.Prelude.{
  ℕ, ◌+◌, ◌%◌, Bool, false, ◌&&◌, ◌||◌, not, Option, none, some, List, [], ◌∷◌, ◌++◌, ◌==◌,
  if◌then◌else◌, Text, codes, length, drop,
}
use system_sw_gui_project.Libc.Strings.{str_eq}
use system_sw_gui_project.Run.{Run, pure, exit, call, ◌>>=◌, ◌>>◌, skip, when}
use system_sw_gui_project.Shell.Paths.{base_path, is_valid_path}
use system_sw_gui_project.Shell.Paths.Bounds.{bufsiz}
use system_sw_gui_project.Shell.System.{
  System, Stat, print, say, complain, bytes, perror, decimal, convert,
}

-- get_type_str, with the numbers of DT_BLK, DT_CHR, DT_DIR, DT_FIFO, DT_LNK, DT_REG and DT_SOCK.
unfoldable pub get_type_str : ℕ → Text
get_type_str type =
    if type == 6
    then codes "b"
    else if type == 2
    then codes "c"
    else if type == 4
    then codes "d"
    else if type == 1
    then codes "p"
    else if type == 10
    then codes "l"
    else if type == 8
    then codes "-"
    else if type == 12
    then codes "s"
    else codes "u"

-- mode & mask, as a test
unfoldable pub has : ℕ → ℕ → Bool
has mode mask = not (bit_and mode mask == 0)

abbrev pub flag : Bool → ℕ → ℕ
flag set letter = if set then letter else b'-'

-- The execute bit and setuid, setgid or the sticky bit share a character.
abbrev pub execute : Bool → Bool → ℕ → ℕ → ℕ
execute x special both alone =
    if x then (if special then both else b'x') else if special then alone else b'-'

-- The string that print_permissions builds.
unfoldable pub permissions : ℕ → Text
permissions mode =
    flag (has mode 0o400) b'r'
    ∷ flag (has mode 0o200) b'w'
    ∷ execute (has mode 0o100) (has mode 0o4000) b's' b'S'
    ∷ flag (has mode 0o040) b'r'
    ∷ flag (has mode 0o020) b'w'
    ∷ execute (has mode 0o010) (has mode 0o2000) b's' b'S'
    ∷ flag (has mode 0o004) b'r'
    ∷ flag (has mode 0o002) b'w'
    ∷ execute (has mode 0o001) (has mode 0o1000) b't' b'T'
    ∷ []

module _ (S : System) where
  unfoldable pub print_permissions : ℕ → Run S.State (Unit {0})
  print_permissions mode = print S (bytes (permissions mode ++ codes " "))

  unfoldable pub link_target : Option Text → Run S.State (Unit {0})
  link_target none = do complain S "readlink"; exit 1
  link_target (some target) =
      print S (bytes (codes "-> " ++ drop (length base_path) target ++ codes "\n"))

  unfoldable pub read_symbolic : Text → Run S.State (Unit {0})
  unfolding link_target
  read_symbolic path = do target ← call (S.readlink path bufsiz); link_target target

  abbrev pub or_unknown : Option Text → Text
  or_unknown none = codes "unknown"
  or_unknown (some name) = name

  -- A line of the long format, behind lstat.
  unfoldable pub long_line : Text → Text → ℕ → Option Stat → Run S.State (Unit {0})
  unfolding print_permissions read_symbolic
  long_line file_path name type none = print S (perror file_path)
  long_line file_path name type (some st) = do
    print S (bytes (get_type_str type))
    print_permissions st.st_mode
    print S (decimal 0 st.st_nlink)
    owner ← call (S.getpwuid st.st_uid)
    group ← call (S.getgrgid st.st_gid)
    print S (bytes (or_unknown owner ++ codes " " ++ or_unknown group ++ codes " "))
    print S (decimal 5 st.st_size)
    print S (bytes (S.format_time st.st_mtime ++ codes " "))
    if str_eq (codes "l") (get_type_str type)
        then (do print S (bytes (name ++ codes " ")); read_symbolic file_path)
        else print S (bytes (name ++ codes "\n"))

  -- One round of the loop over the entries, and the counter `i` behind it.
  unfoldable pub list_entry : Text → Bool → Text → ℕ → ℕ → Option Text → Run S.State ℕ
  unfolding long_line
  list_entry dir_path long name type i none = do complain S "malloc"; pure i
  list_entry dir_path long name type i (some block) =
      let file_path = dir_path ++ b'/' ∷ name in
      if long
      then (do st ← call (S.lstat file_path); long_line file_path name type st; pure i)
      else (do
        print S (bytes (name ++ codes "  "))
        when ((i + 1) % 6 == 0) (say S "\n")
        pure (i + 1))

  unfoldable pub is_hidden : Text → Bool
  is_hidden [] = false
  is_hidden (c ∷ name) = c == b'.'

  unfoldable pub list_entries : Text → Bool → Bool → ℕ → List (Text × ℕ) → Run S.State ℕ
  unfolding list_entry is_hidden
  list_entries dir_path long all i [] = pure i
  list_entries dir_path long all i ((name, type) ∷ entries) =
      let rest = list_entries dir_path long all i entries in
      let shown = (do
        block ← call (S.malloc (length dir_path + length name + 2))
        i' ← list_entry dir_path long name type i block
        list_entries dir_path long all i' entries) in
      if not all && is_hidden name then rest else shown

  unfoldable pub list_opened :
      Text → Bool → Bool → Option (List (Text × ℕ)) → Run S.State (Unit {0})
  unfolding list_entries
  list_opened dir_path long all none = complain S "opendir"
  list_opened dir_path long all (some entries) = do
    i ← list_entries dir_path long all 0 entries
    when (not (i == 0) && not (i == 6)) (say S "\n")

  -- `dir_path` is an array; nothing has been written to it before.
  unfoldable pub run_li : Text → Bool → Bool → Run S.State (Unit {0})
  unfolding list_opened
  run_li path long all = do
    dir_path ← convert S [] path
    if is_valid_path dir_path
        then (do entries ← call (S.opendir dir_path); list_opened dir_path long all entries)
        else print S (bytes (codes "Error: Invalid path: " ++ dir_path ++ codes "\n"))

  -- The options -a and -l; `none` for the `?` that getopt returns for any other.
  unfoldable pub ls_options : Bool → Bool → List (ℕ × Text) → Option (Bool × Bool)
  ls_options all long [] = some (all, long)
  ls_options all long ((n, _) ∷ options) =
      let rest = ls_options (all || n == b'a') (long || n == b'l') options in
      if n == b'?' then none else rest

  unfoldable pub ls_each : Bool → Bool → List Text → Run S.State (Unit {0})
  ls_each all long [] = skip
  ls_each all long (path ∷ paths) = do run_li path long all; ls_each all long paths

  unfoldable pub ls_paths : Option (Bool × Bool) → List Text → Run S.State (Unit {0})
  unfolding run_li ls_each
  ls_paths none operands = say S "usage: ls [-a] [-l] <path>\n"
  ls_paths (some (all, long)) [] = run_li (codes ".") long all
  ls_paths (some (all, long)) (path ∷ paths) = ls_each all long (path ∷ paths)

  unfoldable pub cmd_ls : List Text → Run S.State (Unit {0})
  unfolding ls_options ls_paths
  cmd_ls argv =
      let parsed = S.getopt argv (codes "al") in
      ls_paths (ls_options false false parsed.options) parsed.operands
