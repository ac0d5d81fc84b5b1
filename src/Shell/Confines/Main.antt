-- ===== src/Shell/Confines/Main.antt =====
-- Whatever is typed, the shell stays in the sandbox.
use system_sw_gui_project.Prelude.{
  ℕ, zero, suc, Bool, true, false, Option, none, some, List, [], ◌∷◌, Text, String,
}
use system_sw_gui_project.Run.{Run, skip}
use system_sw_gui_project.Run.Keeps.{Keeps, Keeps-bind}
use system_sw_gui_project.Shell.System.{System}
use system_sw_gui_project.Shell.Main.{
  Command, help, mkdir, rmdir, rename, cd, ls, ln, rm, chmod, cat, cp, ps, kill, Next, again, stop,
  words, help_lines, say_all, run_command, not_found, dispatch_to, dispatch, prompt_other, prompt,
  read_line, round, rounds, home_made, allocated, main,
}
use system_sw_gui_project.Shell.Confines.{Confines, confines_rules, say-Keeps, base_path-valid}
use system_sw_gui_project.Shell.Confines.Streams.{cmd_cat-Keeps, cmd_cp-Keeps, cmd_chmod-Keeps}
use system_sw_gui_project.Shell.Confines.Programs.{cmd_ls-Keeps, cmd_run-Keeps, cmd_kill-Keeps}
use system_sw_gui_project.Shell.Confines.Names.{
  cmd_mkdir-Keeps, cmd_rmdir-Keeps, cmd_rename-Keeps, cmd_cd-Keeps, cmd_ln-Keeps, cmd_rm-Keeps,
}

module _ (S : System) (cmd_ps : List Text → Run S.State (Unit {0})) (fuel : ℕ)
    (P : S.State → Type 0) (c : Confines S P)
    (ps_confined : (argv : List Text) → Keeps P (cmd_ps argv)) where
  say_all-Keeps : (lines : List String) → Keeps P (say_all S cmd_ps fuel lines)
  unfolding say_all
  say_all-Keeps [] = search confines_rules
  say_all-Keeps (line ∷ lines) = Keeps-bind _ _ (say-Keeps S P c line) (λ _. say_all-Keeps lines)

  run_command-Keeps :
      (command : Command) (argv : List Text) → Keeps P (run_command S cmd_ps fuel command argv)
  unfolding run_command
  run_command-Keeps help argv = say_all-Keeps help_lines
  run_command-Keeps mkdir argv = cmd_mkdir-Keeps S P c argv
  run_command-Keeps rmdir argv = cmd_rmdir-Keeps S P c argv
  run_command-Keeps rename argv = cmd_rename-Keeps S P c argv
  run_command-Keeps cd argv = cmd_cd-Keeps S P c argv
  run_command-Keeps ls argv = cmd_ls-Keeps S P c argv
  run_command-Keeps ln argv = cmd_ln-Keeps S P c argv
  run_command-Keeps rm argv = cmd_rm-Keeps S P c argv
  run_command-Keeps chmod argv = cmd_chmod-Keeps S P c argv
  run_command-Keeps cat argv = cmd_cat-Keeps S P c fuel argv
  run_command-Keeps cp argv = cmd_cp-Keeps S P c fuel argv
  run_command-Keeps ps argv = ps_confined argv
  run_command-Keeps kill argv = cmd_kill-Keeps S P c argv

  dispatch_to-Keeps :
      (o : Option Command) (name : Text) (arguments : List Text)
      → Keeps P (dispatch_to S cmd_ps fuel o name arguments)
  unfolding dispatch_to
  dispatch_to-Keeps (some command) name arguments = run_command-Keeps command (name ∷ arguments)
  dispatch_to-Keeps none name [] = cmd_run-Keeps S P c (name ∷ [])
  dispatch_to-Keeps none name (x ∷ xs) = unfold not_found in search confines_rules

  dispatch-Keeps : (argv : List Text) → Keeps P (dispatch S cmd_ps fuel argv)
  unfolding dispatch
  dispatch-Keeps [] = search confines_rules
  dispatch-Keeps (name ∷ arguments) = search (confines_rules, dispatch_to-Keeps) depth 8

  prompt_other-Keeps :
      (current : Text) (o : Option Text) → Keeps P (prompt_other S cmd_ps fuel current o)
  unfolding prompt_other
  prompt_other-Keeps current none = search confines_rules
  prompt_other-Keeps current (some b) = search confines_rules

  prompt-Keeps : Keeps P (prompt S cmd_ps fuel)
  unfolding prompt
  prompt-Keeps = search (confines_rules, prompt_other-Keeps) depth 8

  read_line-Keeps : (o : Option Text) → Keeps P (read_line S cmd_ps fuel o)
  unfolding read_line
  read_line-Keeps none = search confines_rules
  read_line-Keeps (some line) = dispatch-Keeps (words line)

  pub round-Keeps : Keeps P (round S cmd_ps fuel)
  unfolding round
  round-Keeps = search (confines_rules, prompt-Keeps, read_line-Keeps)

  next-Keeps :
      (rest : Run S.State (Unit {0})) (next : Next)
      → Keeps P rest
      → Keeps P (elim next as (λ _. Run S.State (Unit {0})) [ again ↦ rest | stop ↦ skip ])
  next-Keeps rest again k = k
  next-Keeps rest stop k = search confines_rules

  rounds-Keeps : (n : ℕ) → Keeps P (rounds S cmd_ps fuel n)
  unfolding rounds
  rounds-Keeps zero = search confines_rules
  rounds-Keeps (suc n) = Keeps-bind _ _ round-Keeps (λ next. next-Keeps _ next (rounds-Keeps n))

  home_made-Keeps : (b : Bool) → Keeps P (home_made S cmd_ps fuel b)
  unfolding home_made
  home_made-Keeps true = search confines_rules
  home_made-Keeps false = search (confines_rules, base_path-valid) depth 8

  allocated-Keeps : (n : ℕ) (o : Option Text) → Keeps P (allocated S cmd_ps fuel n o)
  unfolding allocated
  allocated-Keeps n none = search confines_rules
  allocated-Keeps n (some b) =
      search (confines_rules, home_made-Keeps, rounds-Keeps, base_path-valid) depth 8

  -- Whatever lines are typed, for however many rounds, and however calls fail: a property of the
  -- system that every call keeps, where the calls that change names, modes or the current
  -- directory, open a file for writing or run a program only have to keep it for paths that
  -- is_valid_path accepts, holds when the shell ends or waits, if ps keeps it too.
  pub main-Keeps : (n : ℕ) (s : S.State) → P s → P (main S cmd_ps fuel n s).1
  unfolding main
  main-Keeps n s h =
      let k : Keeps P (main S cmd_ps fuel n) = search (confines_rules, allocated-Keeps) depth 8 in
      k.at s h
