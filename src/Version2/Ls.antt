-- ===== src/Version2/Ls.antt =====
-- cmd_ls of dir_manage_ver2/manage_dir.c. get_type_str, print_permissions and read_symbolic have
-- the same text as in custom_shell/cmd_ls.c.
use system_sw_gui_project.Prelude.{
  ℕ, Option, none, some, List, [], ◌∷◌, ◌++◌, leb, if◌then◌else◌, Text, codes, length,
}
use system_sw_gui_project.Libc.Strings.{str_eq}
use system_sw_gui_project.Run.{Op, Run, pure, exit, crash, call, ◌>>=◌, ◌>>◌, skip}
use system_sw_gui_project.Shell.System.{System, Stat, print, complain, bytes, perror, decimal}
use system_sw_gui_project.Shell.Ls.{get_type_str, print_permissions, read_symbolic}

-- The block of file_path.
abbrev pub path_block : ℕ
path_block = 100

-- `stat` is stat(), which follows links.
module _ (S : System) (stat : Text → Op S.State (Option Stat)) where
  -- owner->pw_name and group->gr_name
  unfoldable pub name_of : Option Text → Run S.State Text
  name_of none = crash
  name_of (some name) = pure name

  unfoldable pub print_entry : Text → Text → ℕ → Option Stat → Run S.State (Unit {0})
  unfolding name_of
  print_entry file_path name type none = print S (perror file_path)
  print_entry file_path name type (some st) = do
    print S (bytes (get_type_str type))
    print_permissions S st.st_mode
    print S (decimal 0 st.st_nlink)
    user ← call (S.getpwuid st.st_uid)
    owner ← name_of user
    print S (bytes (owner ++ codes " "))
    found ← call (S.getgrgid st.st_gid)
    group ← name_of found
    print S (bytes (group ++ codes " "))
    print S (decimal 5 st.st_size)
    print S (bytes (S.format_time st.st_mtime ++ codes " "))
    if str_eq (codes "l") (get_type_str type)
        then (do print S (bytes (name ++ codes " ")); read_symbolic S file_path)
        else print S (bytes (name ++ codes "\n"))

  -- One round: a path that with its zero is longer than the block is written past its end.
  unfoldable pub entry_round : Text → Text → ℕ → Run S.State (Unit {0})
  unfolding print_entry
  entry_round current_dir name type =
      let file_path = current_dir ++ b'/' ∷ name in
      if leb path_block (length file_path)
      then crash
      else (do st ← call (stat file_path); print_entry file_path name type st)

  unfoldable pub entry_rounds : Text → List (Text × ℕ) → Run S.State (Unit {0})
  unfolding entry_round
  entry_rounds current_dir [] = skip
  entry_rounds current_dir ((name, type) ∷ entries) = do
    entry_round current_dir name type
    entry_rounds current_dir entries

  -- readdir through the null pointer, if opendir fails.
  unfoldable pub list_directory : Text → Option (List (Text × ℕ)) → Run S.State (Unit {0})
  unfolding entry_rounds
  list_directory current_dir none = crash
  list_directory current_dir (some entries) = entry_rounds current_dir entries

  unfoldable pub list_with : Option Text → Run S.State (Unit {0})
  unfolding list_directory
  list_with none = do complain S "malloc"; exit 1
  list_with (some block) = do
    current_dir ← call S.getcwd
    entries ← call (S.opendir current_dir)
    list_directory current_dir entries

  unfoldable pub cmd_ls : List Text → Run S.State (Unit {0})
  unfolding list_with
  cmd_ls argv = do block ← call (S.malloc path_block); list_with block
