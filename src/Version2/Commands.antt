-- ===== src/Version2/Commands.antt =====
-- The commands of dir_manage_ver2/manage_dir.c that change names.
use system_sw_gui_project.Prelude.{
  String, Bool, ◌&&◌, Option, none, some, List, [], ◌∷◌, if◌then◌else◌, Text, codes,
}
use system_sw_gui_project.Libc.Strings.{str_eq}
use system_sw_gui_project.Run.{Op, Run, call, ◌>>=◌, ◌>>◌, skip}
use system_sw_gui_project.Shell.Paths.Bounds.{bufsiz}
use system_sw_gui_project.Shell.System.{System, print, say, complain, perror, attempt}
use system_sw_gui_project.Version2.Paths.{home, is_valid_path, convert}

abbrev pub denied : String
denied = "You can't access upper directory\n"

module _ (S : System) where
  -- The call for an accepted path, and perror(absolute) where it fails.
  unfoldable pub change_path : (Text → Op S.State Bool) → Text → Run S.State (Unit {0})
  change_path op absolute =
      if is_valid_path absolute
      then (do success ← call (op absolute); if success then skip else print S (perror absolute))
      else say S denied

  unfoldable pub one_path :
      (Text → Op S.State Bool) → String → List Text → Option Text → Run S.State (Unit {0})
  unfolding change_path
  one_path op usage argv none = complain S "malloc"
  one_path op usage (_ ∷ path ∷ []) (some block) = do
    absolute ← convert S block path
    change_path op absolute
  one_path op usage argv (some block) = say S usage

  unfoldable pub cmd_mkdir : List Text → Run S.State (Unit {0})
  unfolding one_path
  cmd_mkdir argv = do
    block ← call (S.malloc bufsiz)
    one_path (λ path. S.mkdir path 0o755) "usage : mkdir <directory>\n" argv block

  unfoldable pub cmd_rmdir : List Text → Run S.State (Unit {0})
  unfolding one_path
  cmd_rmdir argv = do
    block ← call (S.malloc bufsiz)
    one_path S.rmdir "usage : rmdir <directory>\n" argv block

  unfoldable pub cmd_rm : List Text → Run S.State (Unit {0})
  unfolding one_path
  cmd_rm argv = do
    block ← call (S.malloc bufsiz)
    one_path S.unlink "usage : rm <directory>\n" argv block

  unfoldable pub change_pair :
      (Text → Text → Op S.State Bool) → String → Text → Text → Run S.State (Unit {0})
  change_pair op name old new =
      if is_valid_path old && is_valid_path new then attempt S (op old new) name else say S denied

  -- From two paths of the command line.
  unfoldable pub two_paths :
      (Text → Text → Op S.State Bool) → String → Text → Text → Text → Text → Run S.State (Unit {0})
  unfolding change_pair
  two_paths op name block block' old new = do
    old_absolute ← convert S block old
    new_absolute ← convert S block' new
    change_pair op name old_absolute new_absolute

  unfoldable pub rename_with : List Text → Option Text → Option Text → Run S.State (Unit {0})
  unfolding two_paths
  rename_with (_ ∷ old ∷ new ∷ []) (some block) (some block') =
      two_paths S.rename "rename" block block' old new
  rename_with argv (some block) (some block') = say S "usage : rmdir <old_name> <new_name>\n"
  rename_with argv _ _ = complain S "malloc"

  unfoldable pub cmd_rename : List Text → Run S.State (Unit {0})
  unfolding rename_with
  cmd_rename argv = do
    block ← call (S.malloc bufsiz)
    block' ← call (S.malloc bufsiz)
    rename_with argv block block'

  unfoldable pub ln_usage : Run S.State (Unit {0})
  ln_usage = do
    say S "usage(hard link) : ln <old_name> <new_name>\n"
    say S "usage(symbolic link) : ln -s <target file> <original file>\n"

  unfoldable pub ln_with : List Text → Option Text → Option Text → Run S.State (Unit {0})
  unfolding two_paths ln_usage
  ln_with (_ ∷ old ∷ new ∷ []) (some block) (some block') =
      two_paths S.link "link" block block' old new
  ln_with (_ ∷ option ∷ old ∷ new ∷ []) (some block) (some block') =
      if str_eq option (codes "-s")
      then two_paths S.symlink "symlink" block block' old new
      else ln_usage
  ln_with argv (some block) (some block') = ln_usage
  ln_with argv _ _ = complain S "malloc"

  unfoldable pub cmd_ln : List Text → Run S.State (Unit {0})
  unfolding ln_with
  cmd_ln argv = do
    block ← call (S.malloc bufsiz)
    block' ← call (S.malloc bufsiz)
    ln_with argv block block'

  -- chdir(BASE_PATH), whatever it returns.
  unfoldable pub go_home : Run S.State (Unit {0})
  go_home = call (S.chdir home) >> skip

  unfoldable pub cd_to : Text → Run S.State (Unit {0})
  cd_to absolute =
      if is_valid_path absolute then attempt S (S.chdir absolute) "cd" else say S denied

  unfoldable pub cd_with : List Text → Option Text → Run S.State (Unit {0})
  unfolding cd_to
  cd_with argv none = complain S "malloc"
  cd_with (_ ∷ path ∷ []) (some block) = do absolute ← convert S block path; cd_to absolute
  cd_with argv (some block) = say S "usage : cd <directory>\n"

  unfoldable pub cd_block : List Text → Run S.State (Unit {0})
  unfolding cd_with
  cd_block argv = do block ← call (S.malloc bufsiz); cd_with argv block

  unfoldable pub cmd_cd : List Text → Run S.State (Unit {0})
  unfolding go_home cd_block
  cmd_cd (_ ∷ []) = go_home
  cmd_cd (name ∷ path ∷ []) =
      if str_eq path (codes "~") then go_home else cd_block (name ∷ path ∷ [])
  cmd_cd argv = cd_block argv
