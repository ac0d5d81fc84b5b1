-- ===== src/Shell/Commands.antt =====
-- The commands that change names in the file system: custom_shell/cmd_rmdir.c, cmd_rm.c,
-- cmd_rename.c, cmd_ln.c, cmd_mkdir.c and cmd_cd.c. `argv` holds the argc words.
use system_sw_gui_project.Prelude.{
  ℕ, String, Bool, false, ◌&&◌, ◌||◌, not, Option, none, some, List, [], ◌∷◌, ◌==◌, if◌then◌else◌,
  Text, codes,
}
use system_sw_gui_project.Libc.Strings.{str_eq}
use system_sw_gui_project.Libc.Numbers.{strtol_octal, to_mode}
use system_sw_gui_project.Run.{Op, Run, call, ◌>>=◌, ◌>>◌, skip}
use system_sw_gui_project.Shell.Paths.{base_path, is_valid_path}
use system_sw_gui_project.Shell.Paths.Bounds.{bufsiz}
use system_sw_gui_project.Shell.System.{System, say, complain, convert, attempt}

abbrev pub refusal : String
refusal = "You can't access upper directory\n"

module _ (S : System) where
  -- The part of cmd_rmdir and cmd_rm behind the test of argc.
  unfoldable pub checked : (Text → Op S.State Bool) → String → Text → Run S.State (Unit {0})
  checked op name absolute =
      if is_valid_path absolute then attempt S (op absolute) name else say S refusal

  unfoldable pub rmdir_with : List Text → Option Text → Run S.State (Unit {0})
  unfolding checked
  rmdir_with argv none = complain S "malloc"
  rmdir_with (_ ∷ path ∷ []) (some block) = do
    absolute ← convert S block path
    checked S.rmdir "rmdir" absolute
  rmdir_with argv (some block) = say S "usage : rmdir <directory>\n"

  unfoldable pub cmd_rmdir : List Text → Run S.State (Unit {0})
  unfolding rmdir_with
  cmd_rmdir argv = do block ← call (S.malloc bufsiz); rmdir_with argv block

  unfoldable pub rm_with : List Text → Option Text → Run S.State (Unit {0})
  unfolding checked
  rm_with argv none = complain S "malloc"
  rm_with (_ ∷ path ∷ []) (some block) = do
    absolute ← convert S block path
    checked S.unlink "rm" absolute
  rm_with argv (some block) = say S "usage : rm <directory>\n"

  unfoldable pub cmd_rm : List Text → Run S.State (Unit {0})
  unfolding rm_with
  cmd_rm argv = do block ← call (S.malloc bufsiz); rm_with argv block

  -- Two paths, both of which have to be accepted.
  unfoldable pub checked_pair :
      (Text → Text → Op S.State Bool) → String → Text → Text → Run S.State (Unit {0})
  checked_pair op name old new =
      if is_valid_path old && is_valid_path new then attempt S (op old new) name else say S refusal

  unfoldable pub rename_with : List Text → Option Text → Option Text → Run S.State (Unit {0})
  unfolding checked_pair
  rename_with (_ ∷ old ∷ new ∷ []) (some block) (some block') = do
    old_absolute ← convert S block old
    new_absolute ← convert S block' new
    checked_pair S.rename "rename" old_absolute new_absolute
  rename_with argv (some block) (some block') = say S "usage : rmdir <old_name> <new_name>\n"
  rename_with argv _ _ = complain S "malloc"

  unfoldable pub cmd_rename : List Text → Run S.State (Unit {0})
  unfolding rename_with
  cmd_rename argv = do
    block ← call (S.malloc bufsiz)
    block' ← call (S.malloc bufsiz)
    rename_with argv block block'

  -- The options of ln: `-s` sets symbolic_link, any other is passed over.
  unfoldable pub symbolic_link : List (ℕ × Text) → Bool
  symbolic_link [] = false
  symbolic_link ((n, _) ∷ options) = n == b's' || symbolic_link options

  unfoldable pub ln_with : Bool → Text → Text → Option Text → Option Text → Run S.State (Unit {0})
  unfolding checked_pair
  ln_with symbolic target name (some block) (some block') = do
    old_absolute ← convert S block target
    new_absolute ← convert S block' name
    if symbolic
        then checked_pair S.symlink "symlink" old_absolute new_absolute
        else checked_pair S.link "link" old_absolute new_absolute
  ln_with symbolic target name _ _ = complain S "malloc"

  unfoldable pub ln_operands : Bool → List Text → Run S.State (Unit {0})
  unfolding ln_with
  ln_operands symbolic (target ∷ name ∷ _) = do
    block ← call (S.malloc bufsiz)
    block' ← call (S.malloc bufsiz)
    ln_with symbolic target name block block'
  ln_operands symbolic operands = say S "usage: ln [-s] <target file> <link file>\n"

  unfoldable pub cmd_ln : List Text → Run S.State (Unit {0})
  unfolding symbolic_link ln_operands
  cmd_ln argv =
      let parsed = S.getopt argv (codes "s") in
      ln_operands (symbolic_link parsed.options) parsed.operands

  unfoldable pub mkdir_at : ℕ → Text → Run S.State (Unit {0})
  mkdir_at mode absolute =
      if is_valid_path absolute
      then (do
        old_umask ← call (S.umask 0)
        made ← call (S.mkdir absolute mode)
        if made then attempt S (S.chmod absolute mode) "chmod" else complain S "mkdir"
        call (S.umask old_umask)
        skip)
      else say S refusal

  unfoldable pub mkdir_with : ℕ → Text → Option Text → Run S.State (Unit {0})
  unfolding mkdir_at
  mkdir_with mode path none = complain S "malloc"
  mkdir_with mode path (some block) = do absolute ← convert S block path; mkdir_at mode absolute

  unfoldable pub mkdir_operands : ℕ → List Text → Run S.State (Unit {0})
  unfolding mkdir_with
  mkdir_operands mode [] = say S "usage: mkdir [-m mode] <directory>\n"
  mkdir_operands mode (path ∷ _) = do block ← call (S.malloc bufsiz); mkdir_with mode path block

  -- `none` for a mode that strtol does not read whole.
  unfoldable pub mode_argument : Text → Option ℕ
  mode_argument text =
      let r = strtol_octal text in
      if r.range || not (str_eq r.rest []) || not r.moved then none else some (to_mode r)

  -- The mode after the options, from the mode before them; `none` returns from cmd_mkdir.
  unfoldable pub mkdir_options : ℕ → List (ℕ × Text) → Option ℕ
  unfolding mode_argument
  mkdir_options mode [] = some mode
  mkdir_options mode ((n, optarg) ∷ options) =
      elim (if n == b'm' then mode_argument optarg else some mode) [
        | none ↦ none
        | some mode' ↦ mkdir_options mode' options
      ]

  unfoldable pub mkdir_parsed : Option ℕ → List Text → Run S.State (Unit {0})
  unfolding mkdir_operands
  mkdir_parsed none operands = complain S "Invalid mode"
  mkdir_parsed (some mode) operands = mkdir_operands mode operands

  unfoldable pub cmd_mkdir : List Text → Run S.State (Unit {0})
  unfolding mkdir_options mkdir_parsed
  cmd_mkdir argv =
      let parsed = S.getopt argv (codes "m:") in
      mkdir_parsed (mkdir_options 0o755 parsed.options) parsed.operands

  unfoldable pub cd_home : Run S.State (Unit {0})
  cd_home = attempt S (S.chdir base_path) "chdir"

  unfoldable pub cd_with : List Text → Option Text → Run S.State (Unit {0})
  unfolding checked
  cd_with argv none = complain S "malloc"
  cd_with (_ ∷ path ∷ []) (some block) = do
    absolute ← convert S block path
    checked S.chdir "cd" absolute
  cd_with argv (some block) = say S "usage : cd <directory>\n"

  unfoldable pub cd_other : List Text → Run S.State (Unit {0})
  unfolding cd_with
  cd_other argv = do block ← call (S.malloc bufsiz); cd_with argv block

  unfoldable pub cmd_cd : List Text → Run S.State (Unit {0})
  unfolding cd_home cd_other
  cmd_cd (_ ∷ []) = cd_home
  cmd_cd (name ∷ path ∷ []) =
      if str_eq path (codes "~") then cd_home else cd_other (name ∷ path ∷ [])
  cmd_cd argv = cd_other argv
