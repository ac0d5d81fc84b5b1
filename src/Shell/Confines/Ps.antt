-- ===== src/Shell/Confines/Ps.antt =====
-- ps stays in the sandbox, and with it the whole shell.
use system_sw_gui_project.Prelude.{ℕ, Bool, true, false, Option, none, some, List, [], ◌∷◌, Text, ℤ}
use system_sw_gui_project.Run.{call}
use system_sw_gui_project.Run.Keeps.{Keeps, KeepsOp, Keeps-call, Keeps-bind}
use system_sw_gui_project.Shell.System.{System}
use system_sw_gui_project.Shell.ProcStat.{ProcStat}
use system_sw_gui_project.Shell.Ps.{
  Processes, header, print_process, with_cmdline, with_owner, show_process, filter_session,
  with_stat, list_process, list_processes, list_proc, ps_with, cmd_ps,
}
use system_sw_gui_project.Shell.Main.{main}
use system_sw_gui_project.Shell.Confines.{Confines, confines_rules}
use system_sw_gui_project.Shell.Confines.Main.{main-Keeps}

-- The further calls of ps keep the property.
pub record Observes {A : Type 0} (Q : Processes A) (P : A → Type 0) : Type 0 where
  pub fgets_from : (f n : ℕ) → KeepsOp P (Q.fgets_from f n)
  pub getsid : (pid : ℤ) → KeepsOp P (Q.getsid pid)
  pub stat_uid : (p : Text) → KeepsOp P (Q.stat_uid p)
  pub boot_time : KeepsOp P Q.boot_time
  pub clock_ticks : KeepsOp P Q.clock_ticks

module _ (S : System) (Q : Processes S.State) (P : S.State → Type 0) (c : Confines S P)
    (o : Observes Q P) where
  fgets_from-Keeps : (f n : ℕ) → Keeps P (call (Q.fgets_from f n))
  fgets_from-Keeps f n = Keeps-call (o.fgets_from f n)

  getsid-Keeps : (pid : ℤ) → Keeps P (call (Q.getsid pid))
  getsid-Keeps pid = Keeps-call (o.getsid pid)

  stat_uid-Keeps : (p : Text) → Keeps P (call (Q.stat_uid p))
  stat_uid-Keeps p = Keeps-call (o.stat_uid p)

  boot_time-Keeps : Keeps P (call Q.boot_time)
  boot_time-Keeps = Keeps-call o.boot_time

  clock_ticks-Keeps : Keeps P (call Q.clock_ticks)
  clock_ticks-Keeps = Keeps-call o.clock_ticks

  ruleset ps_rules = (
    confines_rules, fgets_from-Keeps, getsid-Keeps, stat_uid-Keeps, boot_time-Keeps,
    clock_ticks-Keeps,
  )

  header-Keeps : (b : Bool) → Keeps P (header S Q b)
  unfolding header
  header-Keeps true = search confines_rules
  header-Keeps false = search confines_rules

  print_process-Keeps :
      (b : Bool) (p : ProcStat) (user start total cmdline : Text)
      → Keeps P (print_process S Q b p user start total cmdline)
  unfolding print_process
  print_process-Keeps true p user start total cmdline = search confines_rules
  print_process-Keeps false p user start total cmdline = search confines_rules

  with_cmdline-Keeps :
      (b : Bool) (p : ProcStat) (user start total : Text) (f : Option ℕ)
      → Keeps P (with_cmdline S Q b p user start total f)
  unfolding with_cmdline
  with_cmdline-Keeps b p user start total none = search confines_rules
  with_cmdline-Keeps b p user start total (some f) = search (ps_rules, print_process-Keeps) depth 8

  with_owner-Keeps : (b : Bool) (p : ProcStat) (u : Option ℕ) → Keeps P (with_owner S Q b p u)
  unfolding with_owner
  with_owner-Keeps b p none = search confines_rules
  with_owner-Keeps b p (some u) = search (ps_rules, with_cmdline-Keeps) depth 8

  show_process-Keeps : (b : Bool) (p : ProcStat) → Keeps P (show_process S Q b p)
  unfolding show_process
  show_process-Keeps b p = search (ps_rules, with_owner-Keeps)

  filter_session-Keeps :
      (all b : Bool) (r : Option (ProcStat × Text)) → Keeps P (filter_session S Q all b r)
  unfolding filter_session
  filter_session-Keeps all b none = search confines_rules
  filter_session-Keeps true b (some (p, rest)) = show_process-Keeps b p
  filter_session-Keeps false b (some (p, rest)) = search (ps_rules, show_process-Keeps) depth 8

  with_stat-Keeps : (all b : Bool) (f : Option ℕ) → Keeps P (with_stat S Q all b f)
  unfolding with_stat
  with_stat-Keeps all b none = search confines_rules
  with_stat-Keeps all b (some f) = search (ps_rules, filter_session-Keeps) depth 8

  list_process-Keeps : (all b : Bool) (name : Text) → Keeps P (list_process S Q all b name)
  unfolding list_process
  list_process-Keeps all b name = search (ps_rules, with_stat-Keeps) depth 8

  list_processes-Keeps :
      (all b : Bool) (entries : List (Text × ℕ)) → Keeps P (list_processes S Q all b entries)
  unfolding list_processes
  list_processes-Keeps all b [] = search confines_rules
  list_processes-Keeps all b ((name, type) ∷ entries) =
      Keeps-bind _ _ (list_process-Keeps all b name) (λ _. list_processes-Keeps all b entries)

  list_proc-Keeps :
      (all b : Bool) (entries : Option (List (Text × ℕ))) → Keeps P (list_proc S Q all b entries)
  unfolding list_proc
  list_proc-Keeps all b none = search confines_rules
  list_proc-Keeps all b (some entries) = search (confines_rules, header-Keeps, list_processes-Keeps)

  ps_with-Keeps : (r : Option (Bool × Bool)) → Keeps P (ps_with S Q r)
  unfolding ps_with
  ps_with-Keeps none = search confines_rules
  ps_with-Keeps (some (all, b)) = search (confines_rules, list_proc-Keeps)

  pub cmd_ps-Keeps : (argv : List Text) → Keeps P (cmd_ps S Q argv)
  unfolding cmd_ps
  cmd_ps-Keeps argv = ps_with-Keeps _

  -- Whatever lines are typed, for however many rounds, and however calls fail, with ps as it is: a
  -- property of the system that every call keeps, where the calls that change names, modes or the
  -- current directory, open a file for writing or run a program only have to keep it for paths
  -- that is_valid_path accepts, holds when the shell ends or waits.
  pub whole_shell-Keeps : (fuel n : ℕ) (s : S.State) → P s → P (main S (cmd_ps S Q) fuel n s).1
  whole_shell-Keeps fuel n s h = main-Keeps S (cmd_ps S Q) fuel P c cmd_ps-Keeps n s h
