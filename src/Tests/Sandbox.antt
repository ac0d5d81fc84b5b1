-- ===== src/Tests/Sandbox.antt =====
-- A system that records the paths of the calls which change it, and a session of the shell.
use system_sw_gui_project.Prelude.{
  pos, ◌≡◌, true, Option, none, some, List, [], ◌∷◌, Text, codes, All,
}
use system_sw_gui_project.Run.{Op, Run, skip}
use system_sw_gui_project.Run.Keeps.{Keeps-pure}
use system_sw_gui_project.Shell.Paths.{is_valid_path}
use system_sw_gui_project.Shell.System.{System}
use system_sw_gui_project.Shell.Main.{main}
use system_sw_gui_project.Shell.Ps.{Processes, cmd_ps}
use system_sw_gui_project.Shell.Confines.Ps.{Observes, whole_shell-Keeps}
use system_sw_gui_project.Tests.Systems.{inert}
use system_sw_gui_project.Shell.Confines.{Confines}
use system_sw_gui_project.Shell.Confines.Main.{main-Keeps}

pub record Recorder : Type 0 where
  pub cwd : Text
  pub paths : List Text
  pub input : List Text

abbrev pub record_path : {A : Type 0} → Text → A → Op Recorder A
record_path p a r = (a, record r { paths = p ∷ r.paths })

abbrev pub next_line : List Text → Recorder → Option Text × Recorder
next_line [] r = (none, r)
next_line (line ∷ lines) r = (some line, record r { input = lines })

abbrev pub recorder : System
recorder = record (inert Recorder) {
  getcwd = λ r. (r.cwd, r);
  chdir = λ p r. (true, record r { cwd = p; paths = p ∷ r.paths });
  mkdir = λ p m. record_path p true;
  rmdir = λ p. record_path p true;
  rename = λ p q r. (true, record r { paths = p ∷ q ∷ r.paths });
  link = λ p q r. (true, record r { paths = p ∷ q ∷ r.paths });
  symlink = λ p q r. (true, record r { paths = p ∷ q ∷ r.paths });
  unlink = λ p. record_path p true;
  chmod = λ p m. record_path p true;
  fopen_write = λ p. record_path p (some 4);
  execve = λ p argv. record_path p true;
  fgets = λ n r. next_line r.input r;
}

abbrev pub OnlyValid : Recorder → Type 0
OnlyValid r = All (λ p. is_valid_path p ≡ true) r.paths

next_line-OnlyValid :
    (lines : List Text) (r : Recorder) → OnlyValid r → OnlyValid (next_line lines r).1
next_line-OnlyValid [] r h = h
next_line-OnlyValid (line ∷ lines) r h = h

pub recorder-Confines : Confines recorder OnlyValid
recorder-Confines = record {
  output = λ o. record { at = λ s h. h };
  malloc = λ n. record { at = λ s h. h };
  getcwd = record { at = λ s h. h };
  umask = λ n. record { at = λ s h. h };
  stat_mode = λ p. record { at = λ s h. h };
  regcomp = record { at = λ s h. h };
  fopen_read = λ p. record { at = λ s h. h };
  fgetc = λ f. record { at = λ s h. h };
  fread = λ f n. record { at = λ s h. h };
  fwrite = λ f t. record { at = λ s h. h };
  fclose = λ f. record { at = λ s h. h };
  fgets = λ n. record { at = λ s h. next_line-OnlyValid s.input s h };
  fork = record { at = λ s h. h };
  waitid = λ n. record { at = λ s h. h };
  kill = λ p q. record { at = λ s h. h };
  opendir = λ p. record { at = λ s h. h };
  lstat = λ p. record { at = λ s h. h };
  readlink = λ p n. record { at = λ s h. h };
  getpwuid = λ n. record { at = λ s h. h };
  getgrgid = λ n. record { at = λ s h. h };
  ignore_interrupts = record { at = λ s h. h };
  chdir = λ p v. record { at = λ s h. (v, h) };
  mkdir = λ p m v. record { at = λ s h. (v, h) };
  rmdir = λ p v. record { at = λ s h. (v, h) };
  rename = λ p q v w. record { at = λ s h. (v, (w, h)) };
  link = λ p q v w. record { at = λ s h. (v, (w, h)) };
  symlink = λ p q v w. record { at = λ s h. (v, (w, h)) };
  unlink = λ p v. record { at = λ s h. (v, h) };
  chmod = λ p m v. record { at = λ s h. (v, h) };
  fopen_write = λ p v. record { at = λ s h. (v, h) };
  execve = λ p argv v. record { at = λ s h. (v, h) };
}

abbrev pub session : Recorder
session = record {
  cwd = [];
  paths = [];
  input = codes "mkdir a" ∷ codes "rm ../../x" ∷ codes "cd ../test2" ∷ codes "quit" ∷ [];
}

abbrev no_ps : List Text → Run Recorder (Unit {0})
no_ps argv = skip

main-Keeps_example : OnlyValid (main recorder no_ps 10 8 session).1
main-Keeps_example =
    main-Keeps recorder no_ps 10 OnlyValid recorder-Confines (λ argv. Keeps-pure tt) 8 session tt

abbrev no_processes : Processes Recorder
no_processes = record {
  fgets_from = λ f n r. (none, r);
  getsid = λ pid r. (pos 1, r);
  stat_uid = λ p r. (none, r);
  boot_time = λ r. (0, r);
  clock_ticks = λ r. (100, r);
  clock_time = λ t. [];
}

no_processes-Observes : Observes no_processes OnlyValid
no_processes-Observes = record {
  fgets_from = λ f n. record { at = λ s h. h };
  getsid = λ pid. record { at = λ s h. h };
  stat_uid = λ p. record { at = λ s h. h };
  boot_time = record { at = λ s h. h };
  clock_ticks = record { at = λ s h. h };
}

whole_shell-Keeps_example : OnlyValid (main recorder (cmd_ps recorder no_processes) 10 8 session).1
whole_shell-Keeps_example =
    whole_shell-Keeps recorder no_processes OnlyValid recorder-Confines no_processes-Observes 10 8
      session tt
