-- ===== src/Shell/Confines/Programs.antt =====
-- ls, kill and the running of programs stay in the sandbox.
use system_sw_gui_project.Prelude.{
  ℕ, zero, suc, ◌≡◌, Bool, true, Option, none, some, List, [], ◌∷◌, Text,
}
use system_sw_gui_project.Run.Keeps.{Keeps, Keeps-bind, Keeps-if}
use system_sw_gui_project.Shell.Paths.{is_valid_path}
use system_sw_gui_project.Shell.System.{System, Stat}
use system_sw_gui_project.Shell.Ls.{
  print_permissions, link_target, read_symbolic, long_line, list_entry, list_entries, list_opened,
  run_li, ls_each, ls_paths, cmd_ls,
}
use system_sw_gui_project.Shell.Process.{after_fork, run_with, cmd_run, cmd_kill}
use system_sw_gui_project.Shell.Confines.{Confines, confines_rules, malloc-Keeps}

module _ (S : System) (P : S.State → Type 0) (c : Confines S P) where
  link_target-Keeps : (o : Option Text) → Keeps P (link_target S o)
  unfolding link_target
  link_target-Keeps none = search confines_rules
  link_target-Keeps (some target) = search confines_rules

  pub read_symbolic-Keeps : (p : Text) → Keeps P (read_symbolic S p)
  unfolding read_symbolic
  read_symbolic-Keeps p = search (confines_rules, link_target-Keeps)

  pub print_permissions-Keeps : (mode : ℕ) → Keeps P (print_permissions S mode)
  unfolding print_permissions
  print_permissions-Keeps mode = search confines_rules

  long_line-Keeps :
      (file_path name : Text) (type : ℕ) (o : Option Stat)
      → Keeps P (long_line S file_path name type o)
  unfolding long_line
  long_line-Keeps file_path name type none = search confines_rules
  long_line-Keeps file_path name type (some st) =
      search (confines_rules, print_permissions-Keeps, read_symbolic-Keeps) depth 12

  list_entry-Keeps :
      (dir_path : Text) (long : Bool) (name : Text) (type i : ℕ) (o : Option Text)
      → Keeps P (list_entry S dir_path long name type i o)
  unfolding list_entry
  list_entry-Keeps dir_path long name type i none = search confines_rules
  list_entry-Keeps dir_path long name type i (some b) =
      search (confines_rules, long_line-Keeps) depth 8

  list_entries-Keeps :
      (dir_path : Text) (long all : Bool) (i : ℕ) (entries : List (Text × ℕ))
      → Keeps P (list_entries S dir_path long all i entries)
  unfolding list_entries
  list_entries-Keeps dir_path long all i [] = search confines_rules
  list_entries-Keeps dir_path long all i ((name, type) ∷ entries) =
      Keeps-if _ _ _ (λ _. list_entries-Keeps dir_path long all i entries)
        (Keeps-bind _ _ (malloc-Keeps S P c _) (λ b.
          Keeps-bind _ _ (list_entry-Keeps dir_path long name type i b)
            (λ i'. list_entries-Keeps dir_path long all i' entries)))

  list_opened-Keeps :
      (dir_path : Text) (long all : Bool) (o : Option (List (Text × ℕ)))
      → Keeps P (list_opened S dir_path long all o)
  unfolding list_opened
  list_opened-Keeps dir_path long all none = search confines_rules
  list_opened-Keeps dir_path long all (some entries) = search (confines_rules, list_entries-Keeps)

  run_li-Keeps : (path : Text) (long all : Bool) → Keeps P (run_li S path long all)
  unfolding run_li
  run_li-Keeps path long all = search (confines_rules, list_opened-Keeps)

  ls_each-Keeps : (all long : Bool) (paths : List Text) → Keeps P (ls_each S all long paths)
  unfolding ls_each
  ls_each-Keeps all long [] = search confines_rules
  ls_each-Keeps all long (path ∷ paths) =
      Keeps-bind _ _ (run_li-Keeps path long all) (λ _. ls_each-Keeps all long paths)

  ls_paths-Keeps :
      (o : Option (Bool × Bool)) (operands : List Text) → Keeps P (ls_paths S o operands)
  unfolding ls_paths
  ls_paths-Keeps none operands = search confines_rules
  ls_paths-Keeps (some (all, long)) [] = run_li-Keeps _ long all
  ls_paths-Keeps (some (all, long)) (path ∷ paths) = ls_each-Keeps all long (path ∷ paths)

  pub cmd_ls-Keeps : (argv : List Text) → Keeps P (cmd_ls S argv)
  unfolding cmd_ls
  cmd_ls-Keeps argv = ls_paths-Keeps _ _

  after_fork-Keeps :
      (p : Text) (argv : List Text) (o : Option ℕ)
      → is_valid_path p ≡ true
      → Keeps P (after_fork S p argv o)
  unfolding after_fork
  after_fork-Keeps p argv none v = search confines_rules
  after_fork-Keeps p argv (some zero) v = search confines_rules
  after_fork-Keeps p argv (some (suc pid)) v = search confines_rules

  run_with-Keeps : (argv : List Text) (o : Option Text) → Keeps P (run_with S argv o)
  unfolding run_with
  run_with-Keeps argv none = search confines_rules
  run_with-Keeps [] (some b) = search confines_rules
  run_with-Keeps (name ∷ words) (some b) = search (confines_rules, after_fork-Keeps)

  pub cmd_run-Keeps : (argv : List Text) → Keeps P (cmd_run S argv)
  unfolding cmd_run
  cmd_run-Keeps argv = search (confines_rules, run_with-Keeps)

  pub cmd_kill-Keeps : (argv : List Text) → Keeps P (cmd_kill S argv)
  unfolding cmd_kill
  cmd_kill-Keeps (n ∷ option ∷ target ∷ []) = search confines_rules
  cmd_kill-Keeps argv = search confines_rules
