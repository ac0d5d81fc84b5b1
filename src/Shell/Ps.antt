-- ===== src/Shell/Ps.antt =====
-- custom_shell/cmd_ps.c: the processes of /proc.
pub mod Clock
use system_sw_gui_project.Prelude.{
  ℕ, zero, suc, ◌+◌, ◌-◌, ◌*◌, ◌/◌, ◌%◌, ◌^◌, Bool, true, false, ◌&&◌, ◌||◌, not, Option, none,
  some, List, [], ◌∷◌, ◌++◌, ◌==◌, ltb, if◌then◌else◌, String, Text, codes, take, drop, length, ℤ,
  pos, negsuc,
}
use system_sw_gui_project.Libc.Strings.{truncate, str_eq}
use system_sw_gui_project.Libc.Numbers.{is_digit, atoi}
use system_sw_gui_project.Libc.Decimal.{signed, pad_left, pad_right, two_digits, to_int}
use system_sw_gui_project.Run.{Op, Run, call, ◌>>=◌, ◌>>◌, skip}
use system_sw_gui_project.Shell.System.{System, print, say, complain, bytes}
use system_sw_gui_project.Shell.ProcStat.{ProcStat, scan_stat}

-- snprintf(path, MAX_PATH, "/proc/%d...", pid)
unfoldable pub proc_path : ℤ → Text → Text
proc_path pid file = truncate 255 (codes "/proc/" ++ signed pid ++ file)

unfoldable pub starts_digit : Text → Bool
starts_digit [] = false
starts_digit (c ∷ name) = is_digit c

-- The parentheses around the name.
unfoldable pub strip : Text → Text
strip comm = if ltb 2 (length comm) then drop 1 (take (length comm - 1) comm) else comm

-- tty_nr & 0xFF
abbrev pub low_byte : ℤ → ℕ
low_byte (pos n) = n % 256
low_byte (negsuc n) = 255 - n % 256

abbrev pub is_zero : ℤ → Bool
is_zero (pos n) = n == 0
is_zero (negsuc n) = false

unfoldable pub tty_name : ℤ → Text
tty_name tty_nr =
    if is_zero tty_nr
    then codes "?"
    else truncate 19 (codes "pts/" ++ signed (pos (low_byte tty_nr)))

-- hours, minutes and seconds are of type int; time_str has 12 bytes.
unfoldable pub time_str : ℕ → Text
time_str total_time = truncate 11 (
    two_digits (to_int (total_time / 3600))
    ++ b':' ∷ two_digits (to_int (total_time % 3600 / 60))
    ++ b':' ∷ two_digits (to_int (total_time % 60)))

-- fgets failed or read a zero first: the name stands in for the command line.
unfoldable pub command_line : Text → Option Text → Text
command_line comm none = comm
command_line comm (some []) = comm
command_line comm (some (c ∷ line)) = c ∷ line

-- The further calls of ps: fgets on a file, getsid, st_uid of stat, time(NULL) less the uptime of
-- sysinfo, sysconf(_SC_CLK_TCK), and what localtime and strftime make of a time.
pub record Processes (A : Type 0) : Type 0 where
  pub fgets_from : ℕ → ℕ → Op A (Option Text)
  pub getsid : ℤ → Op A ℤ
  pub stat_uid : Text → Op A (Option ℕ)
  pub boot_time : Op A ℕ
  pub clock_ticks : Op A ℕ
  pub clock_time : ℕ → Text

abbrev pub same : ℤ → ℤ → Bool
same (pos m) (pos n) = m == n
same (negsuc m) (negsuc n) = m == n
same _ _ = false

module _ (S : System) (Q : Processes S.State) where
  unfoldable pub header : Bool → Run S.State (Unit {0})
  header true = print S (
      bytes (
        pad_right 10 (codes "UID")
        ++ b' ' ∷ pad_left 6 (codes "PID")
        ++ b' ' ∷ pad_left 6 (codes "PPID")
        ++ b' ' ∷ pad_right 6 (codes "STIME")
        ++ b' ' ∷ pad_right 10 (codes "TTY")
        ++ b' ' ∷ pad_left 8 (codes "TIME")
        ++ codes " CMD\n"))
  header false = print S (
      bytes (
        pad_left 7 (codes "PID")
        ++ b' ' ∷ pad_right 7 (codes "TTY")
        ++ b' ' ∷ pad_left 10 (codes "TIME")
        ++ b' ' ∷ pad_right 20 (codes "CMD")
        ++ codes "\n"))

  unfoldable pub print_process :
      Bool → ProcStat → Text → Text → Text → Text → Run S.State (Unit {0})
  print_process true p user start total cmdline = print S (
      bytes (
        pad_right 10 user
        ++ b' ' ∷ pad_left 6 (signed p.pid)
        ++ b' ' ∷ pad_left 6 (signed p.ppid)
        ++ b' ' ∷ pad_right 6 start
        ++ b' ' ∷ pad_right 10 (tty_name p.tty_nr)
        ++ b' ' ∷ pad_left 8 total
        ++ b' ' ∷ cmdline
        ++ codes "\n"))
  print_process false p user start total cmdline = print S (
      bytes (
        pad_left 7 (signed p.pid)
        ++ b' ' ∷ pad_right 7 (tty_name p.tty_nr)
        ++ b' ' ∷ pad_left 10 total
        ++ b' ' ∷ pad_right 20 (strip p.comm)
        ++ codes "\n"))

  -- Behind the fopen of cmdline.
  unfoldable pub with_cmdline :
      Bool → ProcStat → Text → Text → Text → Option ℕ → Run S.State (Unit {0})
  unfolding print_process
  with_cmdline detailed p user start total none = skip
  with_cmdline detailed p user start total (some file) = do
    line ← call (Q.fgets_from file 256)
    call (S.fclose file)
    print_process detailed p user start total (command_line (strip p.comm) line)

  abbrev pub user_name : Option Text → Text
  user_name none = codes "UNKNOWN"
  user_name (some name) = name

  -- Behind the stat of the process's directory.
  unfoldable pub with_owner : Bool → ProcStat → Option ℕ → Run S.State (Unit {0})
  unfolding with_cmdline
  with_owner detailed p none = skip
  with_owner detailed p (some uid) = do
    user ← call (S.getpwuid uid)
    boot ← call Q.boot_time
    ticks ← call Q.clock_ticks
    file ← call (S.fopen_read (proc_path p.pid (codes "/cmdline")))
    with_cmdline detailed p (user_name user)
        (truncate 9 (Q.clock_time (boot + p.start_time / ticks)))
        (time_str ((p.utime + p.stime_val) % 2 ^ 64 / ticks)) file

  unfoldable pub show_process : Bool → ProcStat → Run S.State (Unit {0})
  unfolding with_owner
  show_process detailed p = do
    uid ← call (Q.stat_uid (proc_path p.pid []))
    with_owner detailed p uid

  -- Without -e, only the processes of this session.
  unfoldable pub filter_session : Bool → Bool → Option (ProcStat × Text) → Run S.State (Unit {0})
  unfolding show_process
  filter_session all detailed none = skip
  filter_session true detailed (some (p, rest)) = show_process detailed p
  filter_session false detailed (some (p, rest)) = do
    session ← call (Q.getsid p.pid)
    own ← call (Q.getsid (pos 0))
    if same session own then show_process detailed p else skip

  abbrev pub parsed : Option Text → Option (ProcStat × Text)
  parsed none = none
  parsed (some line) = scan_stat line

  unfoldable pub with_stat : Bool → Bool → Option ℕ → Run S.State (Unit {0})
  unfolding filter_session
  with_stat all detailed none = skip
  with_stat all detailed (some file) = do
    line ← call (Q.fgets_from file 1024)
    call (S.fclose file)
    filter_session all detailed (parsed line)

  unfoldable pub list_process : Bool → Bool → Text → Run S.State (Unit {0})
  unfolding with_stat
  list_process all detailed name =
      if starts_digit name
      then (do
        file ← call (S.fopen_read (proc_path (atoi name) (codes "/stat")))
        with_stat all detailed file)
      else skip

  unfoldable pub list_processes : Bool → Bool → List (Text × ℕ) → Run S.State (Unit {0})
  unfolding list_process
  list_processes all detailed [] = skip
  list_processes all detailed ((name, type) ∷ entries) = do
    list_process all detailed name
    list_processes all detailed entries

  unfoldable pub list_proc : Bool → Bool → Option (List (Text × ℕ)) → Run S.State (Unit {0})
  unfolding header list_processes
  list_proc all detailed none = complain S "opendir"
  list_proc all detailed (some entries) = do header detailed; list_processes all detailed entries

  -- The options -e and -f; `none` for the `?` that getopt returns for any other.
  unfoldable pub ps_options : Bool → Bool → List (ℕ × Text) → Option (Bool × Bool)
  ps_options all detailed [] = some (all, detailed)
  ps_options all detailed ((n, _) ∷ options) =
      let rest = ps_options (all || n == b'e') (detailed || n == b'f') options in
      if n == b'?' then none else rest

  unfoldable pub ps_with : Option (Bool × Bool) → Run S.State (Unit {0})
  unfolding list_proc
  ps_with none = say S "Usage: ps [-e] [-f]\n"
  ps_with (some (all, detailed)) = do
    entries ← call (S.opendir (codes "/proc"))
    list_proc all detailed entries

  unfoldable pub cmd_ps : List Text → Run S.State (Unit {0})
  unfolding ps_options ps_with
  cmd_ps argv = ps_with (ps_options false false (S.getopt argv (codes "ef")).options)
