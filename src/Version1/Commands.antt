-- ===== src/Version1/Commands.antt =====
-- The commands of dir_manage_ver1/manage_dir.c. An argument that is missing is the null pointer.
use system_sw_gui_project.Prelude.{
  ℕ, zero, suc, ◌+◌, ◌/◌, ◌%◌, Bool, Option, none, some, List, [], ◌∷◌, ◌++◌, ◌==◌, leb,
  if◌then◌else◌, Text, codes, length,
}
use system_sw_gui_project.Libc.Strings.{str_eq}
use system_sw_gui_project.Run.{Op, Run, pure, crash, call, ◌>>=◌, ◌>>◌, skip}
use system_sw_gui_project.Shell.System.{System, Stat, print, complain, bytes, perror, decimal}
use system_sw_gui_project.Version2.Paths.{convert_to_absolute, result_of}
use system_sw_gui_project.Version2.Commands.{change_path, change_pair, go_home, cd_to}

-- What %o prints: at most 11 digits for a mode_t.
unfoldable pub octal_onto : ℕ → ℕ → Text → Text
octal_onto zero n behind = behind
octal_onto (suc fuel) n behind =
    let digits = (b'0' + n % 8) ∷ behind in
    let more = octal_onto fuel (n / 8) digits in if n / 8 == 0 then digits else more

unfoldable pub octal : ℕ → Text
unfolding octal_onto
octal n = octal_onto 11 n []

-- The block of file_path.
abbrev pub path_block : ℕ
path_block = 100

module _ (S : System) where
  -- convert_to_absolute(relative, buffer, current): strlen of a missing argument ends the program.
  unfoldable pub convert : Text → Text → Option Text → Run S.State Text
  convert current buffer none = crash
  convert current buffer (some relative) = do
    entire ← call (S.malloc (length relative + length current + 3))
    result_of S buffer (convert_to_absolute current relative) entire

  unfoldable pub change_with :
      (Text → Op S.State Bool) → Option Text → Text → Option Text → Run S.State (Unit {0})
  unfolding convert
  change_with op name current none = complain S "malloc"
  change_with op name current (some block) = do
    absolute ← convert current block name
    change_path S op absolute

  unfoldable pub create_directory : Option Text → Text → Run S.State (Unit {0})
  unfolding change_with
  create_directory dir_name current_path = do
    block ← call (S.malloc 8192)
    change_with (λ path. S.mkdir path 0o755) dir_name current_path block

  unfoldable pub delete_directory : Option Text → Text → Run S.State (Unit {0})
  unfolding change_with
  delete_directory dir_name current_path = do
    block ← call (S.malloc 8192)
    change_with S.rmdir dir_name current_path block

  unfoldable pub rename_with :
      Option Text → Option Text → Text → Option Text → Option Text → Run S.State (Unit {0})
  unfolding convert
  rename_with old_path new_path current (some block) (some block') = do
    old_absolute ← convert current block old_path
    new_absolute ← convert current block' new_path
    change_pair S S.rename "rename" old_absolute new_absolute
  rename_with old_path new_path current _ _ = complain S "malloc"

  unfoldable pub rename_directory : Option Text → Option Text → Text → Run S.State (Unit {0})
  unfolding rename_with
  rename_directory old_path new_path current_path = do
    block ← call (S.malloc 8192)
    block' ← call (S.malloc 8192)
    rename_with old_path new_path current_path block block'

  unfoldable pub move_with : Text → Text → Option Text → Run S.State (Unit {0})
  unfolding convert
  move_with path current none = complain S "malloc"
  move_with path current (some block) = do
    absolute ← convert current block (some path)
    cd_to S absolute

  unfoldable pub move_directory : Text → Text → Run S.State (Unit {0})
  unfolding move_with
  move_directory path current_path =
      if str_eq path (codes "~")
      then go_home S
      else (do block ← call (S.malloc 8192); move_with path current_path block)

  -- owner->pw_name and group->gr_name
  unfoldable pub name_of : Option Text → Run S.State Text
  name_of none = crash
  name_of (some name) = pure name

  unfoldable pub print_entry : Text → Text → Option Stat → Run S.State (Unit {0})
  unfolding name_of octal
  print_entry file_path name none = print S (perror file_path)
  print_entry file_path name (some st) = do
    print S (bytes (octal st.st_mode ++ codes " "))
    print S (decimal 0 st.st_nlink)
    user ← call (S.getpwuid st.st_uid)
    owner ← name_of user
    print S (bytes (owner ++ codes " "))
    found ← call (S.getgrgid st.st_gid)
    group ← name_of found
    print S (bytes (group ++ codes " "))
    print S (decimal 5 st.st_size)
    print S (bytes (name ++ codes "\n"))

  module _ (stat : Text → Op S.State (Option Stat)) where
    -- A path that with its zero is longer than the block is written past its end.
    unfoldable pub list_entries : Text → List (Text × ℕ) → Run S.State (Unit {0})
    unfolding print_entry
    list_entries current_dir [] = skip
    list_entries current_dir ((name, type) ∷ entries) =
        let rest = list_entries current_dir entries in
        let file_path = current_dir ++ b'/' ∷ name in
        if leb path_block (length file_path)
        then crash
        else (do st ← call (stat file_path); print_entry file_path name st; rest)

    -- readdir through the null pointer, if opendir has failed.
    unfoldable pub list_opened : Text → Option (List (Text × ℕ)) → Run S.State (Unit {0})
    unfolding list_entries
    list_opened current_dir none = crash
    list_opened current_dir (some entries) = list_entries current_dir entries
