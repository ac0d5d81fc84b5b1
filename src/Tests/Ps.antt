-- ===== src/Tests/Ps.antt =====
-- A line of /proc/[pid]/stat, and the time that ps prints.
use system_sw_gui_project.Prelude.{
  ℕ, ◌≡◌, refl, true, false, none, some, [], ◌∷◌, ◌++◌, pos, codes, arith,
}
use system_sw_gui_project.Libc.Numbers.{read_digits}
use system_sw_gui_project.Shell.ProcStat.{scan_stat}
use system_sw_gui_project.Shell.ProcStat.Fields.{Numeral, spelled}
use system_sw_gui_project.Shell.ProcStat.Line.{
  StatLine, render, IsLine, scan_stat-render, scan_stat_two_words,
}
use system_sw_gui_project.Shell.Ps.{time_str}
use system_sw_gui_project.Shell.Ps.Clock.{read_clock, read_clock-time_str}

abbrev one_digit : ℕ → Numeral
one_digit d = record { minus = false; first = d; more = [] }

-- 1 (sh) S 2 3 4 5 6 7 8 9 1 2 3 4 5 6 7 -8 9 0
abbrev sh : StatLine
sh = record {
  pid = one_digit b'1';
  comm = codes "(sh)";
  state = b'S';
  ppid = one_digit b'2';
  pgrp = one_digit b'3';
  session = one_digit b'4';
  tty_nr = one_digit b'5';
  tpgid = one_digit b'6';
  flags = one_digit b'7';
  minflt = one_digit b'8';
  cminflt = one_digit b'9';
  majflt = one_digit b'1';
  cmajflt = one_digit b'2';
  utime = one_digit b'3';
  stime = one_digit b'4';
  cutime = one_digit b'5';
  cstime = one_digit b'6';
  priority = one_digit b'7';
  nice = record { minus = true; first = b'8'; more = [] };
  num_threads = one_digit b'9';
  others = codes " 0";
}

sh-IsLine : IsLine sh
sh-IsLine = record {
  pid = (refl, tt);
  comm = ((λ e. cc), (refl, (refl, (refl, (refl, tt)))), omega arith);
  state = refl;
  ids = ((refl, tt), ((refl, tt), ((refl, tt), ((refl, tt), tt))));
  faults = ((refl, tt), ((refl, tt), ((refl, tt), ((refl, tt), ((refl, tt), tt)))));
  times = ((refl, tt), ((refl, tt), tt));
  rest = ((refl, tt), ((refl, tt), ((refl, tt), ((refl, tt), ((refl, tt), tt)))));
  num_threads = (refl, tt);
  others = refl;
}

scan_stat-render_example :
    scan_stat (render sh)
    ≡ some (
      record {
        pid = pos 1;
        comm = codes "(sh)";
        ppid = pos 2;
        tty_nr = pos 3;
        utime = 2;
        stime_val = 3;
        start_time = 9;
      },
      codes " 0",
    )
unfolding read_digits
scan_stat-render_example = scan_stat-render sh sh-IsLine

-- 1 (Web Co...
scan_stat_two_words_example :
    scan_stat (
      spelled (one_digit b'1')
      ++ (b' ' ∷ codes "(Web" ++ (b' ' ∷ b'C' ∷ b'o' ∷ codes "ntent) S 1 1 1")))
    ≡ none
scan_stat_two_words_example =
    scan_stat_two_words (one_digit b'1') (codes "(Web") b'C' b'o' (codes "ntent) S 1 1 1")
      (refl, tt) ((λ e. cc), (refl, (refl, (refl, (refl, tt)))), omega arith) refl
      (refl, refl, refl, refl)

read_clock-time_str_example : read_clock (time_str 3661) ≡ some 3661
read_clock-time_str_example = read_clock-time_str 3661 (omega arith)
