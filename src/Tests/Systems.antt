-- ===== src/Tests/Systems.antt =====
-- A system on any state whose calls change nothing, to be given other calls.
use system_sw_gui_project.Prelude.{true, none, some, [], codes}
use system_sw_gui_project.Run.{Op}
use system_sw_gui_project.Shell.System.{System}

abbrev pub answer : {S A : Type 0} → A → Op S A
answer a s = (a, s)

abbrev pub inert : Type 0 → System
inert A = record {
  State = A;
  output = λ o. answer tt;
  malloc = λ n. answer (some []);
  getcwd = answer (codes "/tmp/test");
  chdir = λ p. answer true;
  mkdir = λ p m. answer true;
  rmdir = λ p. answer true;
  rename = λ p q. answer true;
  link = λ p q. answer true;
  symlink = λ p q. answer true;
  unlink = λ p. answer true;
  chmod = λ p m. answer true;
  umask = λ m. answer 0o022;
  stat_mode = λ p. answer (some 0o644);
  regcomp = answer true;
  fopen_read = λ p. answer none;
  fopen_write = λ p. answer none;
  fgetc = λ f. answer none;
  fread = λ f n. answer [];
  fwrite = λ f t. answer 0;
  fclose = λ f. answer tt;
  fgets = λ n. answer none;
  fork = answer none;
  execve = λ p argv. answer true;
  waitid = λ n. answer true;
  kill = λ pid sig. answer true;
  opendir = λ p. answer none;
  lstat = λ p. answer none;
  readlink = λ p n. answer none;
  getpwuid = λ n. answer none;
  getgrgid = λ n. answer none;
  ignore_interrupts = answer true;
  format_time = λ t. [];
  getopt = λ argv s. record { options = []; operands = argv };
}
