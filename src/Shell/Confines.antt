-- ===== src/Shell/Confines.antt =====
-- The sandbox: with which paths the shell calls what changes the file system or runs a program.
pub mod Names
pub mod Streams
pub mod Programs
pub mod Main
pub mod Ps
use system_sw_gui_project.Prelude.{
  ℕ, ◌≡◌, refl, Bool, true, false, ◌&&◌, Option, none, some, List, Text, ℤ, String, if◌then◌else◌,
}
use system_sw_gui_project.Run.{Op, Run, call, ◌>>=◌, ◌>>◌}
use system_sw_gui_project.Run.Keeps.{
  Keeps, KeepsOp, keeps_rules, Keeps-call, Keeps-bind, Keeps-pure,
}
use system_sw_gui_project.Libc.Strings.{starts_with}
use system_sw_gui_project.Shell.Paths.{is_valid_path, base_path}
use system_sw_gui_project.Shell.System.{
  System, Output, print, say, complain, filled, convert, convert_into, attempt,
}

-- What a property P of states has to be kept by: every call that only reads or writes open
-- files, with any arguments, and every call that changes names, modes or the current directory,
-- opens a file for writing or runs a program, with paths that is_valid_path accepts.
pub record Confines (S : System) (P : S.State → Type 0) : Type 0 where
  pub output : (o : Output) → KeepsOp P (S.output o)
  pub malloc : (n : ℕ) → KeepsOp P (S.malloc n)
  pub getcwd : KeepsOp P S.getcwd
  pub umask : (n : ℕ) → KeepsOp P (S.umask n)
  pub stat_mode : (p : Text) → KeepsOp P (S.stat_mode p)
  pub regcomp : KeepsOp P S.regcomp
  pub fopen_read : (p : Text) → KeepsOp P (S.fopen_read p)
  pub fgetc : (f : ℕ) → KeepsOp P (S.fgetc f)
  pub fread : (f n : ℕ) → KeepsOp P (S.fread f n)
  pub fwrite : (f : ℕ) (t : Text) → KeepsOp P (S.fwrite f t)
  pub fclose : (f : ℕ) → KeepsOp P (S.fclose f)
  pub fgets : (n : ℕ) → KeepsOp P (S.fgets n)
  pub fork : KeepsOp P S.fork
  pub waitid : (n : ℕ) → KeepsOp P (S.waitid n)
  pub kill : (pid sig : ℤ) → KeepsOp P (S.kill pid sig)
  pub opendir : (p : Text) → KeepsOp P (S.opendir p)
  pub lstat : (p : Text) → KeepsOp P (S.lstat p)
  pub readlink : (p : Text) (n : ℕ) → KeepsOp P (S.readlink p n)
  pub getpwuid : (n : ℕ) → KeepsOp P (S.getpwuid n)
  pub getgrgid : (n : ℕ) → KeepsOp P (S.getgrgid n)
  pub ignore_interrupts : KeepsOp P S.ignore_interrupts
  pub chdir : (p : Text) → is_valid_path p ≡ true → KeepsOp P (S.chdir p)
  pub mkdir : (p : Text) (m : ℕ) → is_valid_path p ≡ true → KeepsOp P (S.mkdir p m)
  pub rmdir : (p : Text) → is_valid_path p ≡ true → KeepsOp P (S.rmdir p)
  pub rename :
      (p q : Text) → is_valid_path p ≡ true → is_valid_path q ≡ true → KeepsOp P (S.rename p q)
  pub link : (p q : Text) → is_valid_path p ≡ true → is_valid_path q ≡ true → KeepsOp P (S.link p q)
  pub symlink :
      (p q : Text) → is_valid_path p ≡ true → is_valid_path q ≡ true → KeepsOp P (S.symlink p q)
  pub unlink : (p : Text) → is_valid_path p ≡ true → KeepsOp P (S.unlink p)
  pub chmod : (p : Text) (m : ℕ) → is_valid_path p ≡ true → KeepsOp P (S.chmod p m)
  pub fopen_write : (p : Text) → is_valid_path p ≡ true → KeepsOp P (S.fopen_write p)
  pub execve : (p : Text) (argv : List Text) → is_valid_path p ≡ true → KeepsOp P (S.execve p argv)

pub base_path-valid : is_valid_path base_path ≡ true
unfolding is_valid_path starts_with
base_path-valid = refl

pub and_left : (a b : Bool) → a && b ≡ true → a ≡ true
and_left true b h = refl
and_left false b h = h

pub and_right : (a b : Bool) → a && b ≡ true → b ≡ true
and_right true b h = h
and_right false b h = cc

module _ (S : System) (P : S.State → Type 0) (c : Confines S P) where
  pub output-Keeps : (o : Output) → Keeps P (call (S.output o))
  output-Keeps o = Keeps-call (c.output o)

  pub malloc-Keeps : (n : ℕ) → Keeps P (call (S.malloc n))
  malloc-Keeps n = Keeps-call (c.malloc n)

  pub getcwd-Keeps : Keeps P (call S.getcwd)
  getcwd-Keeps = Keeps-call c.getcwd

  pub umask-Keeps : (n : ℕ) → Keeps P (call (S.umask n))
  umask-Keeps n = Keeps-call (c.umask n)

  pub stat_mode-Keeps : (p : Text) → Keeps P (call (S.stat_mode p))
  stat_mode-Keeps p = Keeps-call (c.stat_mode p)

  pub regcomp-Keeps : Keeps P (call S.regcomp)
  regcomp-Keeps = Keeps-call c.regcomp

  pub fopen_read-Keeps : (p : Text) → Keeps P (call (S.fopen_read p))
  fopen_read-Keeps p = Keeps-call (c.fopen_read p)

  pub fgetc-Keeps : (f : ℕ) → Keeps P (call (S.fgetc f))
  fgetc-Keeps f = Keeps-call (c.fgetc f)

  pub fread-Keeps : (f n : ℕ) → Keeps P (call (S.fread f n))
  fread-Keeps f n = Keeps-call (c.fread f n)

  pub fwrite-Keeps : (f : ℕ) (t : Text) → Keeps P (call (S.fwrite f t))
  fwrite-Keeps f t = Keeps-call (c.fwrite f t)

  pub fclose-Keeps : (f : ℕ) → Keeps P (call (S.fclose f))
  fclose-Keeps f = Keeps-call (c.fclose f)

  pub fgets-Keeps : (n : ℕ) → Keeps P (call (S.fgets n))
  fgets-Keeps n = Keeps-call (c.fgets n)

  pub fork-Keeps : Keeps P (call S.fork)
  fork-Keeps = Keeps-call c.fork

  pub waitid-Keeps : (n : ℕ) → Keeps P (call (S.waitid n))
  waitid-Keeps n = Keeps-call (c.waitid n)

  pub kill-Keeps : (pid sig : ℤ) → Keeps P (call (S.kill pid sig))
  kill-Keeps pid sig = Keeps-call (c.kill pid sig)

  pub opendir-Keeps : (p : Text) → Keeps P (call (S.opendir p))
  opendir-Keeps p = Keeps-call (c.opendir p)

  pub lstat-Keeps : (p : Text) → Keeps P (call (S.lstat p))
  lstat-Keeps p = Keeps-call (c.lstat p)

  pub readlink-Keeps : (p : Text) (n : ℕ) → Keeps P (call (S.readlink p n))
  readlink-Keeps p n = Keeps-call (c.readlink p n)

  pub getpwuid-Keeps : (n : ℕ) → Keeps P (call (S.getpwuid n))
  getpwuid-Keeps n = Keeps-call (c.getpwuid n)

  pub getgrgid-Keeps : (n : ℕ) → Keeps P (call (S.getgrgid n))
  getgrgid-Keeps n = Keeps-call (c.getgrgid n)

  pub ignore_interrupts-Keeps : Keeps P (call S.ignore_interrupts)
  ignore_interrupts-Keeps = Keeps-call c.ignore_interrupts

  pub chdir-Keeps : (p : Text) → is_valid_path p ≡ true → Keeps P (call (S.chdir p))
  chdir-Keeps p v = Keeps-call (c.chdir p v)

  pub mkdir-Keeps : (p : Text) (m : ℕ) → is_valid_path p ≡ true → Keeps P (call (S.mkdir p m))
  mkdir-Keeps p m v = Keeps-call (c.mkdir p m v)

  pub rmdir-Keeps : (p : Text) → is_valid_path p ≡ true → Keeps P (call (S.rmdir p))
  rmdir-Keeps p v = Keeps-call (c.rmdir p v)

  pub unlink-Keeps : (p : Text) → is_valid_path p ≡ true → Keeps P (call (S.unlink p))
  unlink-Keeps p v = Keeps-call (c.unlink p v)

  pub chmod-Keeps : (p : Text) (m : ℕ) → is_valid_path p ≡ true → Keeps P (call (S.chmod p m))
  chmod-Keeps p m v = Keeps-call (c.chmod p m v)

  pub fopen_write-Keeps : (p : Text) → is_valid_path p ≡ true → Keeps P (call (S.fopen_write p))
  fopen_write-Keeps p v = Keeps-call (c.fopen_write p v)

  pub execve-Keeps :
      (p : Text) (argv : List Text) → is_valid_path p ≡ true → Keeps P (call (S.execve p argv))
  execve-Keeps p argv v = Keeps-call (c.execve p argv v)

  pub rename-Keeps :
      (p q : Text) → is_valid_path p && is_valid_path q ≡ true → Keeps P (call (S.rename p q))
  rename-Keeps p q v = Keeps-call (c.rename p q (and_left _ _ v) (and_right (is_valid_path p) _ v))

  pub link-Keeps :
      (p q : Text) → is_valid_path p && is_valid_path q ≡ true → Keeps P (call (S.link p q))
  link-Keeps p q v = Keeps-call (c.link p q (and_left _ _ v) (and_right (is_valid_path p) _ v))

  pub symlink-Keeps :
      (p q : Text) → is_valid_path p && is_valid_path q ≡ true → Keeps P (call (S.symlink p q))
  symlink-Keeps p q v =
      Keeps-call (c.symlink p q (and_left _ _ v) (and_right (is_valid_path p) _ v))

  pub print-Keeps : (o : Output) → Keeps P (print S o)
  unfolding print
  print-Keeps o = output-Keeps o

  pub say-Keeps : (text : String) → Keeps P (say S text)
  unfolding say
  say-Keeps text = search print-Keeps

  pub complain-Keeps : (text : String) → Keeps P (complain S text)
  unfolding complain
  complain-Keeps text = search print-Keeps

  filled-Keeps : (b a : Text) (o : Option Text) → Keeps P (filled S b a o)
  unfolding filled
  filled-Keeps b a none = search (keeps_rules, complain-Keeps)
  filled-Keeps b a (some _) = search keeps_rules

  pub convert-Keeps : (b r : Text) → Keeps P (convert S b r)
  unfolding convert
  convert-Keeps b r = search (keeps_rules, filled-Keeps, getcwd-Keeps, malloc-Keeps)

  pub convert_into-Keeps : (b : Option Text) (r : Text) → Keeps P (convert_into S b r)
  unfolding convert_into
  convert_into-Keeps none r = search (keeps_rules, convert-Keeps)
  convert_into-Keeps (some b) r = convert-Keeps b r

  pub attempt-Keeps :
      (op : Op S.State Bool) (text : String) → Keeps P (call op) → Keeps P (attempt S op text)
  unfolding attempt
  attempt-Keeps op text k = search (keeps_rules, complain-Keeps)

pub ruleset confines_rules = (
  keeps_rules, print-Keeps, say-Keeps, complain-Keeps, convert-Keeps, convert_into-Keeps,
  attempt-Keeps, rename-Keeps, link-Keeps, symlink-Keeps, output-Keeps, malloc-Keeps, getcwd-Keeps,
  umask-Keeps, stat_mode-Keeps, regcomp-Keeps, fopen_read-Keeps, fgetc-Keeps, fread-Keeps,
  fwrite-Keeps, fclose-Keeps, fgets-Keeps, fork-Keeps, waitid-Keeps, kill-Keeps, opendir-Keeps,
  lstat-Keeps, readlink-Keeps, getpwuid-Keeps, getgrgid-Keeps, ignore_interrupts-Keeps, chdir-Keeps,
  mkdir-Keeps, rmdir-Keeps, unlink-Keeps, chmod-Keeps, fopen_write-Keeps, execve-Keeps,
)
