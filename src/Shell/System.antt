-- ===== src/Shell/System.antt =====
-- What custom_shell/ calls: the C library's and the kernel's functions, which are parameters.
use system_sw_gui_project.Prelude.{
  ℕ, String, Bool, Option, none, some, List, [], ◌+◌, Text, codes, ℤ, length, if◌then◌else◌,
}
use system_sw_gui_project.Run.{Op, Run, pure, crash, call, ◌>>=◌, ◌>>◌, skip}
use system_sw_gui_project.Shell.Paths.{convert_to_absolute}

-- A call of printf with a fixed text, of printf or putchar with the program's data, of perror; `decimal` is %ld
-- padded to a width.
pub data Output : Type 0 where
  literal : String → Output
  bytes : Text → Output
  perror : Text → Output
  decimal : ℕ → ℕ → Output

-- What lstat fills in.
pub record Stat : Type 0 where
  pub st_mode : ℕ
  pub st_nlink : ℕ
  pub st_uid : ℕ
  pub st_gid : ℕ
  pub st_size : ℕ
  pub st_mtime : ℕ

-- The options that getopt returns before -1, each with optarg, and argv from optind on.
pub record Getopt : Type 0 where
  pub options : List (ℕ × Text)
  pub operands : List Text

-- A Boolean result is true for success. A fresh block of malloc holds some text, and `none` is
-- the null pointer; `none` of fgetc and fgets is the end of the input. `opendir` gives
-- the names and types that readdir returns, `format_time` what localtime and strftime make of a
-- time, and `ignore_interrupts` is signal(SIGINT, SIG_IGN).
pub record System : Type 1 where
  pub State : Type 0
  pub output : Output → Op State (Unit {0})
  pub malloc : ℕ → Op State (Option Text)
  pub getcwd : Op State Text
  pub chdir : Text → Op State Bool
  pub mkdir : Text → ℕ → Op State Bool
  pub rmdir : Text → Op State Bool
  pub rename : Text → Text → Op State Bool
  pub link : Text → Text → Op State Bool
  pub symlink : Text → Text → Op State Bool
  pub unlink : Text → Op State Bool
  pub chmod : Text → ℕ → Op State Bool
  pub umask : ℕ → Op State ℕ
  pub stat_mode : Text → Op State (Option ℕ)
  pub regcomp : Op State Bool
  pub fopen_read : Text → Op State (Option ℕ)
  pub fopen_write : Text → Op State (Option ℕ)
  pub fgetc : ℕ → Op State (Option ℕ)
  pub fread : ℕ → ℕ → Op State Text
  pub fwrite : ℕ → Text → Op State ℕ
  pub fclose : ℕ → Op State (Unit {0})
  pub fgets : ℕ → Op State (Option Text)
  pub fork : Op State (Option ℕ)
  pub execve : Text → List Text → Op State Bool
  pub waitid : ℕ → Op State Bool
  pub kill : ℤ → ℤ → Op State Bool
  pub opendir : Text → Op State (Option (List (Text × ℕ)))
  pub lstat : Text → Op State (Option Stat)
  pub readlink : Text → ℕ → Op State (Option Text)
  pub getpwuid : ℕ → Op State (Option Text)
  pub getgrgid : ℕ → Op State (Option Text)
  pub ignore_interrupts : Op State Bool
  pub format_time : ℕ → Text
  pub getopt : List Text → Text → Getopt

module _ (S : System) where
  unfoldable pub print : Output → Run S.State (Unit {0})
  print o = call (S.output o)

  -- A fixed text, and a failure.
  unfoldable pub say : String → Run S.State (Unit {0})
  unfolding print
  say text = print (literal text)

  unfoldable pub complain : String → Run S.State (Unit {0})
  unfolding print
  complain text = print (perror (codes text))

  unfoldable pub filled : Text → Text → Option Text → Run S.State Text
  filled buffer absolute none = do complain "malloc"; pure buffer
  filled buffer absolute (some _) = pure absolute

  -- convert_to_absolute(relative, absolute_path): the text of the buffer afterwards. If there is
  -- no memory for `entire_path`, the buffer keeps the text that it had.
  unfoldable pub convert : Text → Text → Run S.State Text
  convert buffer relative = do
    current ← call S.getcwd
    entire ← call (S.malloc (length relative + length current + 3))
    filled buffer (convert_to_absolute current relative) entire

  -- if (op == -1) perror(text);
  unfoldable pub attempt : Op S.State Bool → String → Run S.State (Unit {0})
  attempt op text = do success ← call op; if success then skip else complain text

  -- The same where the caller does not test the block of its buffer: through the null pointer
  -- the program ends.
  unfoldable pub convert_into : Option Text → Text → Run S.State Text
  convert_into none relative = do convert [] relative; crash
  convert_into (some block) relative = convert block relative
