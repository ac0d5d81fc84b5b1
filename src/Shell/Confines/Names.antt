-- ===== src/Shell/Confines/Names.antt =====
-- The commands of Shell.Commands, Shell.Chmod and Shell.Process stay in the sandbox.
use system_sw_gui_project.Prelude.{
  ℕ, ◌≡◌, Bool, true, false, ◌&&◌, Option, none, some, List, [], ◌∷◌, Text, String,
}
use system_sw_gui_project.Run.{Op, call}
use system_sw_gui_project.Run.Keeps.{Keeps}
use system_sw_gui_project.Shell.Paths.{is_valid_path}
use system_sw_gui_project.Shell.System.{System}
use system_sw_gui_project.Shell.Commands.{
  checked, checked_pair, rmdir_with, cmd_rmdir, rm_with, cmd_rm, rename_with, cmd_rename, ln_with,
  ln_operands, cmd_ln, mkdir_at, mkdir_with, mkdir_operands, mkdir_parsed, cmd_mkdir, cd_home,
  cd_with, cd_other, cmd_cd,
}
use system_sw_gui_project.Shell.Confines.{Confines, confines_rules, base_path-valid}

module _ (S : System) (P : S.State → Type 0) (c : Confines S P) where
  checked-Keeps :
      (op : Text → Op S.State Bool) (name : String) (p : Text)
      → ((q : Text) → is_valid_path q ≡ true → Keeps P (call (op q)))
      → Keeps P (checked S op name p)
  unfolding checked
  checked-Keeps op name p k = search confines_rules

  rmdir_with-Keeps : (argv : List Text) (o : Option Text) → Keeps P (rmdir_with S argv o)
  unfolding rmdir_with
  rmdir_with-Keeps argv none = search confines_rules
  rmdir_with-Keeps (n ∷ path ∷ []) (some block) = search (confines_rules, checked-Keeps)
  rmdir_with-Keeps argv (some block) = search confines_rules

  pub cmd_rmdir-Keeps : (argv : List Text) → Keeps P (cmd_rmdir S argv)
  unfolding cmd_rmdir
  cmd_rmdir-Keeps argv = search (confines_rules, rmdir_with-Keeps)

  rm_with-Keeps : (argv : List Text) (o : Option Text) → Keeps P (rm_with S argv o)
  unfolding rm_with
  rm_with-Keeps argv none = search confines_rules
  rm_with-Keeps (n ∷ path ∷ []) (some block) = search (confines_rules, checked-Keeps)
  rm_with-Keeps argv (some block) = search confines_rules

  pub cmd_rm-Keeps : (argv : List Text) → Keeps P (cmd_rm S argv)
  unfolding cmd_rm
  cmd_rm-Keeps argv = search (confines_rules, rm_with-Keeps)

  checked_pair-Keeps :
      (op : Text → Text → Op S.State Bool) (name : String) (p q : Text)
      → ((x y : Text) → is_valid_path x && is_valid_path y ≡ true → Keeps P (call (op x y)))
      → Keeps P (checked_pair S op name p q)
  unfolding checked_pair
  checked_pair-Keeps op name p q k = search confines_rules

  rename_with-Keeps : (argv : List Text) (o o' : Option Text) → Keeps P (rename_with S argv o o')
  unfolding rename_with
  rename_with-Keeps (n ∷ old ∷ new ∷ []) (some b) (some b') =
      search (confines_rules, checked_pair-Keeps)
  rename_with-Keeps argv (some b) (some b') = search confines_rules
  rename_with-Keeps argv _ _ = search confines_rules

  pub cmd_rename-Keeps : (argv : List Text) → Keeps P (cmd_rename S argv)
  unfolding cmd_rename
  cmd_rename-Keeps argv = search (confines_rules, rename_with-Keeps)

  ln_with-Keeps :
      (symbolic : Bool) (target name : Text) (o o' : Option Text)
      → Keeps P (ln_with S symbolic target name o o')
  unfolding ln_with
  ln_with-Keeps true target name (some b) (some b') = search (confines_rules, checked_pair-Keeps)
  ln_with-Keeps false target name (some b) (some b') = search (confines_rules, checked_pair-Keeps)
  ln_with-Keeps symbolic target name _ _ = search confines_rules

  ln_operands-Keeps :
      (symbolic : Bool) (operands : List Text) → Keeps P (ln_operands S symbolic operands)
  unfolding ln_operands
  ln_operands-Keeps symbolic (target ∷ name ∷ _) = search (confines_rules, ln_with-Keeps)
  ln_operands-Keeps symbolic operands = search confines_rules

  pub cmd_ln-Keeps : (argv : List Text) → Keeps P (cmd_ln S argv)
  unfolding cmd_ln
  cmd_ln-Keeps argv = ln_operands-Keeps _ _

  mkdir_at-Keeps : (mode : ℕ) (p : Text) → Keeps P (mkdir_at S mode p)
  unfolding mkdir_at
  mkdir_at-Keeps mode p = search confines_rules depth 10

  mkdir_with-Keeps : (mode : ℕ) (path : Text) (o : Option Text) → Keeps P (mkdir_with S mode path o)
  unfolding mkdir_with
  mkdir_with-Keeps mode path none = search confines_rules
  mkdir_with-Keeps mode path (some b) = search (confines_rules, mkdir_at-Keeps)

  mkdir_operands-Keeps :
      (mode : ℕ) (operands : List Text) → Keeps P (mkdir_operands S mode operands)
  unfolding mkdir_operands
  mkdir_operands-Keeps mode [] = search confines_rules
  mkdir_operands-Keeps mode (path ∷ _) = search (confines_rules, mkdir_with-Keeps)

  mkdir_parsed-Keeps :
      (mode : Option ℕ) (operands : List Text) → Keeps P (mkdir_parsed S mode operands)
  unfolding mkdir_parsed
  mkdir_parsed-Keeps none operands = search confines_rules
  mkdir_parsed-Keeps (some mode) operands = mkdir_operands-Keeps mode operands

  pub cmd_mkdir-Keeps : (argv : List Text) → Keeps P (cmd_mkdir S argv)
  unfolding cmd_mkdir
  cmd_mkdir-Keeps argv = mkdir_parsed-Keeps _ _

  cd_home-Keeps : Keeps P (cd_home S)
  unfolding cd_home
  cd_home-Keeps = search (confines_rules, base_path-valid)

  cd_with-Keeps : (argv : List Text) (o : Option Text) → Keeps P (cd_with S argv o)
  unfolding cd_with
  cd_with-Keeps argv none = search confines_rules
  cd_with-Keeps (n ∷ path ∷ []) (some b) = search (confines_rules, checked-Keeps)
  cd_with-Keeps argv (some b) = search confines_rules

  cd_other-Keeps : (argv : List Text) → Keeps P (cd_other S argv)
  unfolding cd_other
  cd_other-Keeps argv = search (confines_rules, cd_with-Keeps)

  pub cmd_cd-Keeps : (argv : List Text) → Keeps P (cmd_cd S argv)
  unfolding cmd_cd
  cmd_cd-Keeps (n ∷ []) = cd_home-Keeps
  cmd_cd-Keeps (n ∷ path ∷ []) = search (confines_rules, cd_home-Keeps, cd_other-Keeps)
  cmd_cd-Keeps argv = cd_other-Keeps argv
