-- ===== src/Shell/ProcStat/Line.antt =====
-- A line of /proc/[pid]/stat as proc(5) has it, and what cmd_ps.c takes for its fields.
use system_sw_gui_project.Prelude.{
  ℕ, ◌≡◌, refl, ◌∙◌, false, none, some, [], ◌∷◌, ◌++◌, ◌==◌, Text, ℤ, All,
}
use system_sw_gui_project.Libc.Numbers.{is_space, is_digit}
use system_sw_gui_project.Libc.Scan.{scan_int, scan_word, scan_char, to_ulong}
use system_sw_gui_project.Shell.ProcStat.{skip_five, scan_times, scan_stat}
use system_sw_gui_project.Shell.ProcStat.Fields.{
  Numeral, IsNumeral, spelled, value, digit_first, bind_some, bind_none, spaced, int_step,
  spaced-digit_first, skip_five-spaced, scan_int-spelled, IsWord, scan_word-append, scan_char-space,
  scan_int-letter,
}

-- The fields by their names in proc(5); `others` begins behind num_threads.
pub record StatLine : Type 0 where
  pub pid : Numeral
  pub comm : Text
  pub state : ℕ
  pub ppid : Numeral
  pub pgrp : Numeral
  pub session : Numeral
  pub tty_nr : Numeral
  pub tpgid : Numeral
  pub flags : Numeral
  pub minflt : Numeral
  pub cminflt : Numeral
  pub majflt : Numeral
  pub cmajflt : Numeral
  pub utime : Numeral
  pub stime : Numeral
  pub cutime : Numeral
  pub cstime : Numeral
  pub priority : Numeral
  pub nice : Numeral
  pub num_threads : Numeral
  pub others : Text

-- The fields from utime on, and those before it from ppid on.
abbrev pub render_times : StatLine → Text
render_times l = spaced l.cmajflt (
    spaced l.utime (
      spaced l.stime (
        spaced l.cutime
          (spaced l.cstime (spaced l.priority (spaced l.nice (spaced l.num_threads l.others)))))))

abbrev pub render_ids : StatLine → Text → Text
render_ids l rest = spaced l.ppid (
    spaced l.pgrp (
      spaced l.session (
        spaced l.tty_nr (
          spaced l.tpgid
            (spaced l.flags (spaced l.minflt (spaced l.cminflt (spaced l.majflt rest))))))))

abbrev pub render : StatLine → Text
render l = spelled l.pid ++ (b' ' ∷ l.comm ++ (b' ' ∷ l.state ∷ render_ids l (render_times l)))

-- Numbers are numbers, the name is one word, and `others` begins no further digit.
pub record IsLine (l : StatLine) : Type 0 where
  pub pid : IsNumeral l.pid
  pub comm : IsWord 255 l.comm
  pub state : is_space l.state ≡ false
  pub ids : All IsNumeral (l.ppid ∷ l.pgrp ∷ l.session ∷ l.tty_nr ∷ [])
  pub faults : All IsNumeral (l.tpgid ∷ l.flags ∷ l.minflt ∷ l.cminflt ∷ l.majflt ∷ [])
  pub times : All IsNumeral (l.cmajflt ∷ l.utime ∷ [])
  pub rest : All IsNumeral (l.stime ∷ l.cutime ∷ l.cstime ∷ l.priority ∷ l.nice ∷ [])
  pub num_threads : IsNumeral l.num_threads
  pub others : digit_first l.others ≡ false

scan_times-render :
    (l : StatLine) (pid : ℤ) (comm : Text) (ppid tty_nr : ℤ)
    → IsLine l
    → scan_times pid comm ppid tty_nr (render_times l)
      ≡ some (
        record {
          pid = pid;
          comm = comm;
          ppid = ppid;
          tty_nr = tty_nr;
          utime = to_ulong (value l.cmajflt);
          stime_val = to_ulong (value l.utime);
          start_time = to_ulong (value l.num_threads);
        },
        l.others,
      )
unfolding scan_times
scan_times-render l pid comm ppid tty_nr h =
    int_step _ l.cmajflt _ h.times.0 (spaced-digit_first l.utime _)
    ∙ int_step _ l.utime _ h.times.1.0 (spaced-digit_first l.stime _)
    ∙ bind_some skip_five _ _ (value l.nice) _ (
        skip_five-spaced l.stime l.cutime l.cstime l.priority l.nice _ h.rest
          (spaced-digit_first l.num_threads _))
    ∙ int_step _ l.num_threads _ h.num_threads h.others

-- From a line with the fields of proc(5), cmd_ps.c takes the process group for the terminal,
-- cmajflt and utime for the times in user and kernel mode, and num_threads for the start.
pub scan_stat-render :
    (l : StatLine)
    → IsLine l
    → scan_stat (render l)
      ≡ some (
        record {
          pid = value l.pid;
          comm = l.comm;
          ppid = value l.ppid;
          tty_nr = value l.pgrp;
          utime = to_ulong (value l.cmajflt);
          stime_val = to_ulong (value l.utime);
          start_time = to_ulong (value l.num_threads);
        },
        l.others,
      )
unfolding scan_stat
scan_stat-render l h =
    bind_some scan_int _ _ (value l.pid) _ (scan_int-spelled l.pid _ h.pid refl)
    ∙ bind_some (scan_word 255) _ _ l.comm _ (scan_word-append 255 l.comm _ h.comm)
    ∙ bind_some scan_char _ _ l.state _ (scan_char-space l.state _ h.state)
    ∙ int_step _ l.ppid _ h.ids.0 (spaced-digit_first l.pgrp _)
    ∙ int_step _ l.pgrp _ h.ids.1.0 (spaced-digit_first l.session _)
    ∙ int_step _ l.session _ h.ids.1.1.0 (spaced-digit_first l.tty_nr _)
    ∙ int_step _ l.tty_nr _ h.ids.1.1.1.0 (spaced-digit_first l.tpgid _)
    ∙ bind_some skip_five _ _ (value l.majflt) _ (
        skip_five-spaced l.tpgid l.flags l.minflt l.cminflt l.majflt _ h.faults
          (spaced-digit_first l.cmajflt _))
    ∙ scan_times-render l (value l.pid) l.comm (value l.ppid) (value l.pgrp) h

-- A letter: what no blank, digit or sign is.
abbrev pub IsLetter : ℕ → Type 0
IsLetter c =
    (is_space c ≡ false) × (is_digit c ≡ false) × ((c == b'-') ≡ false) × ((c == b'+') ≡ false)

-- A name of two words, the second of which has a letter as its second character, makes the
-- conversions fail, and so cmd_ps.c leaves the process out.
pub scan_stat_two_words :
    (pid : Numeral) (word : Text) (c d : ℕ) (rest : Text)
    → IsNumeral pid
    → IsWord 255 word
    → is_space c ≡ false
    → IsLetter d
    → scan_stat (spelled pid ++ (b' ' ∷ word ++ (b' ' ∷ c ∷ d ∷ rest))) ≡ none
unfolding scan_stat
scan_stat_two_words pid word c d rest p w e (s, g, m, q) =
    bind_some scan_int _ _ (value pid) _ (scan_int-spelled pid _ p refl)
    ∙ bind_some (scan_word 255) _ _ word _ (scan_word-append 255 word _ w)
    ∙ bind_some scan_char _ _ c _ (scan_char-space c _ e)
    ∙ bind_none scan_int _ _ (scan_int-letter d rest s g m q)
