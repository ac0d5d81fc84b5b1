-- ===== src/Version2/Confines/Main.antt =====
-- ls and the main loop.
use system_sw_gui_project.Prelude.{
  ℕ, zero, suc, Bool, true, false, Option, none, some, List, [], ◌∷◌, Text, String,
}
use system_sw_gui_project.Run.{Op, Run, call, skip}
use system_sw_gui_project.Run.Keeps.{Keeps, KeepsOp, Keeps-bind, Keeps-call}
use system_sw_gui_project.Shell
use system_sw_gui_project.Shell.System.{System, Stat}
use system_sw_gui_project.Shell.Confines.{Confines, confines_rules}
use system_sw_gui_project.Shell.Confines.Programs.{read_symbolic-Keeps, print_permissions-Keeps}
use system_sw_gui_project.Version2.Paths.{home}
use system_sw_gui_project.Version2.Ls.{
  name_of, print_entry, entry_round, entry_rounds, list_directory, list_with, cmd_ls,
}
use system_sw_gui_project.Version2.Main.{
  Function, help, mkdir, rmdir, rename, cd, ls, ln, rm, chmod, cat, cp, Round, go_on, leave,
  help_text, say_lines, cmd_help, run_function, run_found, run_index, run_words, show_prompt,
  prompt, read_command, one_round, shell_loop, enter_home, start, main,
}
use system_sw_gui_project.Version2.Confines.Commands.{
  home-valid, cmd_mkdir-Keeps, cmd_rmdir-Keeps, cmd_rm-Keeps, cmd_rename-Keeps, cmd_ln-Keeps,
  cmd_cd-Keeps, go_home-Keeps,
}
use system_sw_gui_project.Version2.Confines.Streams.{cmd_cat-Keeps, cmd_cp-Keeps, cmd_chmod-Keeps}

module _ (S : System) (P : S.State → Type 0) (c : Confines S P)
    (stat : Text → Op S.State (Option Stat)) (stat_confined : (p : Text) → KeepsOp P (stat p))
    (fuel : ℕ) where
  name_of-Keeps : (o : Option Text) → Keeps P (name_of S stat o)
  unfolding name_of
  name_of-Keeps none = search confines_rules
  name_of-Keeps (some name) = search confines_rules

  ls_print-Keeps : (mode : ℕ) → Keeps P (Shell.Ls.print_permissions S mode)
  ls_print-Keeps mode = print_permissions-Keeps S P c mode

  ls_link-Keeps : (p : Text) → Keeps P (Shell.Ls.read_symbolic S p)
  ls_link-Keeps p = read_symbolic-Keeps S P c p

  print_entry-Keeps :
      (p name : Text) (type : ℕ) (o : Option Stat) → Keeps P (print_entry S stat p name type o)
  unfolding print_entry
  print_entry-Keeps p name type none = search confines_rules
  print_entry-Keeps p name type (some st) =
      search (confines_rules, ls_print-Keeps, ls_link-Keeps, name_of-Keeps) depth 16

  stat-Keeps : (p : Text) → Keeps P (call (stat p))
  stat-Keeps p = Keeps-call (stat_confined p)

  entry_round-Keeps : (d name : Text) (type : ℕ) → Keeps P (entry_round S stat d name type)
  unfolding entry_round
  entry_round-Keeps d name type = search (confines_rules, stat-Keeps, print_entry-Keeps)

  entry_rounds-Keeps :
      (d : Text) (entries : List (Text × ℕ)) → Keeps P (entry_rounds S stat d entries)
  unfolding entry_rounds
  entry_rounds-Keeps d [] = search confines_rules
  entry_rounds-Keeps d ((name, type) ∷ entries) =
      Keeps-bind _ _ (entry_round-Keeps d name type) (λ _. entry_rounds-Keeps d entries)

  list_directory-Keeps :
      (d : Text) (o : Option (List (Text × ℕ))) → Keeps P (list_directory S stat d o)
  unfolding list_directory
  list_directory-Keeps d none = search confines_rules
  list_directory-Keeps d (some entries) = entry_rounds-Keeps d entries

  list_with-Keeps : (o : Option Text) → Keeps P (list_with S stat o)
  unfolding list_with
  list_with-Keeps none = search confines_rules
  list_with-Keeps (some b) = search (confines_rules, list_directory-Keeps)

  cmd_ls-Keeps : (argv : List Text) → Keeps P (cmd_ls S stat argv)
  unfolding cmd_ls
  cmd_ls-Keeps argv = search (confines_rules, list_with-Keeps)

  say_lines-Keeps : (lines : List String) → Keeps P (say_lines S stat fuel lines)
  unfolding say_lines
  say_lines-Keeps [] = search confines_rules
  say_lines-Keeps (line ∷ lines) =
      Keeps-bind _ _ (search confines_rules) (λ _. say_lines-Keeps lines)

  run_function-Keeps : (f : Function) (argv : List Text) → Keeps P (run_function S stat fuel f argv)
  unfolding run_function cmd_help
  run_function-Keeps help argv = say_lines-Keeps help_text
  run_function-Keeps mkdir argv = cmd_mkdir-Keeps S P c argv
  run_function-Keeps rmdir argv = cmd_rmdir-Keeps S P c argv
  run_function-Keeps rename argv = cmd_rename-Keeps S P c argv
  run_function-Keeps cd argv = cmd_cd-Keeps S P c argv
  run_function-Keeps ls argv = cmd_ls-Keeps argv
  run_function-Keeps ln argv = cmd_ln-Keeps S P c argv
  run_function-Keeps rm argv = cmd_rm-Keeps S P c argv
  run_function-Keeps chmod argv = cmd_chmod-Keeps S P c argv
  run_function-Keeps cat argv = cmd_cat-Keeps S P c fuel argv
  run_function-Keeps cp argv = cmd_cp-Keeps S P c fuel argv

  run_found-Keeps :
      (o : Option Function) (argv : List Text) → Keeps P (run_found S stat fuel o argv)
  unfolding run_found
  run_found-Keeps none argv = search confines_rules
  run_found-Keeps (some f) argv = run_function-Keeps f argv

  run_index-Keeps :
      (o : Option ℕ) (name : Text) (argv : List Text) → Keeps P (run_index S stat fuel o name argv)
  unfolding run_index
  run_index-Keeps none name argv = search confines_rules
  run_index-Keeps (some i) name argv = run_found-Keeps _ argv

  run_words-Keeps : (argv : List Text) → Keeps P (run_words S stat fuel argv)
  unfolding run_words
  run_words-Keeps [] = search confines_rules
  run_words-Keeps (name ∷ arguments) = search (confines_rules, run_index-Keeps) depth 8

  show_prompt-Keeps : (t : Text) (o : Option Text) → Keeps P (show_prompt S stat fuel t o)
  unfolding show_prompt
  show_prompt-Keeps t none = search confines_rules
  show_prompt-Keeps t (some b) = search confines_rules

  prompt-Keeps : Keeps P (prompt S stat fuel)
  unfolding prompt
  prompt-Keeps = search (confines_rules, show_prompt-Keeps) depth 8

  read_command-Keeps : (o : Option Text) → Keeps P (read_command S stat fuel o)
  unfolding read_command
  read_command-Keeps none = search confines_rules
  read_command-Keeps (some line) = run_words-Keeps _

  one_round-Keeps : Keeps P (one_round S stat fuel)
  unfolding one_round
  one_round-Keeps = search (confines_rules, prompt-Keeps, read_command-Keeps)

  leave-Keeps :
      (rest : Run S.State (Unit {0})) (next : Round)
      → Keeps P rest
      → Keeps P (elim next as (λ _. Run S.State (Unit {0})) [ go_on ↦ rest | leave ↦ skip ])
  leave-Keeps rest go_on k = k
  leave-Keeps rest leave k = search confines_rules

  shell_loop-Keeps : (n : ℕ) → Keeps P (shell_loop S stat fuel n)
  unfolding shell_loop
  shell_loop-Keeps zero = search confines_rules
  shell_loop-Keeps (suc n) =
      Keeps-bind _ _ one_round-Keeps (λ next. leave-Keeps _ next (shell_loop-Keeps n))

  enter_home-Keeps : (b : Bool) → Keeps P (enter_home S stat fuel b)
  unfolding enter_home
  enter_home-Keeps true = search confines_rules
  enter_home-Keeps false =
      Keeps-bind _ _ (Keeps-call (c.mkdir home 0o755 home-valid)) (λ _. go_home-Keeps S P c)

  start-Keeps : (n : ℕ) (o : Option Text) → Keeps P (start S stat fuel n o)
  unfolding start
  start-Keeps n none = search confines_rules
  start-Keeps n (some b) =
      Keeps-bind _ _ (Keeps-call (c.chdir home home-valid))
        (λ entered. Keeps-bind _ _ (enter_home-Keeps entered) (λ _. shell_loop-Keeps n))

  -- Whatever lines are typed, for however many rounds, and however calls fail, the earlier
  -- version keeps a property of the system too, if every call does, where the calls that change
  -- names, modes or the current directory or open a file for writing only have to keep it for
  -- paths that is_valid_path accepts.
  pub main_confined : (n : ℕ) (s : S.State) → P s → P (main S stat fuel n s).1
  unfolding main
  main_confined n s h =
      let k : Keeps P (main S stat fuel n) = search (confines_rules, start-Keeps) in k.at s h
