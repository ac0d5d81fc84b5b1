-- ===== src/Shell/ProcStat.antt =====
-- The sscanf of custom_shell/cmd_ps.c on a line of /proc/[pid]/stat.
pub mod Fields
pub mod Line
use system_sw_gui_project.Prelude.{ℕ, Text, ℤ}
use system_sw_gui_project.Libc.Scan.{
  Scan, result, scan_int, scan_word, scan_char, to_ulong, ◌>>=◌, ◌>>◌,
}

pub record ProcStat : Type 0 where
  pub pid : ℤ
  pub comm : Text
  pub ppid : ℤ
  pub tty_nr : ℤ
  pub utime : ℕ
  pub stime_val : ℕ
  pub start_time : ℕ

-- The five conversions %*d %*d %*d %*d %*d, and as many of %*u.
unfoldable pub skip_five : Scan ℤ
skip_five = do scan_int; scan_int; scan_int; scan_int; scan_int

-- From the first %lu on.
unfoldable pub scan_times : ℤ → Text → ℤ → ℤ → Scan ProcStat
unfolding skip_five
scan_times pid comm ppid tty_nr = do
  utime ← scan_int
  stime_val ← scan_int
  skip_five
  start_time ← scan_int
  result (record {
    pid = pid;
    comm = comm;
    ppid = ppid;
    tty_nr = tty_nr;
    utime = to_ulong utime;
    stime_val = to_ulong stime_val;
    start_time = to_ulong start_time;
  })

-- The format's conversions, one after the other: all seven results are there exactly if the last
-- conversion succeeds.
unfoldable pub scan_stat : Scan ProcStat
unfolding skip_five scan_times
scan_stat = do
  pid ← scan_int
  comm ← scan_word 255
  scan_char
  ppid ← scan_int
  tty_nr ← scan_int
  scan_int
  scan_int
  skip_five
  scan_times pid comm ppid tty_nr
