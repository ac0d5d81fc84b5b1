-- ===== src/Backend/Allows.antt =====
-- Which paths the file operations change: rules for a property of states that every call keeps
-- where the calls that change a path may do so.
pub mod Files
use system_sw_gui_project.Prelude.{ℕ, String, Option, none, some, List, Text, All}
use system_sw_gui_project.Run.{call}
use system_sw_gui_project.Run.Keeps.{Keeps, KeepsOp, keeps_rules, Keeps-call}
use system_sw_gui_project.Backend.Calls.{Calls, Message, note}
use system_sw_gui_project.Backend.Files.{join}

abbrev pub Walked : (Text → Type 0) → Option (List Text) → Type 0
Walked W none = Unit
Walked W (some paths) = All W paths

-- W holds of the paths that may be changed: with a directory, of what nftw visits in it and of
-- the names joined to it.
pub record Allows (K : Calls) (P : K.State → Type 0) (W : Text → Type 0) : Type 0 where
  pub below : (p name : Text) → W p → W (join p name)
  pub visited : (p : Text) (s : K.State) → W p → Walked W (K.walk p s).0
  pub log : (t : String) → KeepsOp P (K.log t)
  pub stat : (p : Text) → KeepsOp P (K.stat p)
  pub walk : (p : Text) → KeepsOp P (K.walk p)
  pub opendir : (p : Text) → KeepsOp P (K.opendir p)
  pub closedir : KeepsOp P K.closedir
  pub fopen_read : (p : Text) → KeepsOp P (K.fopen_read p)
  pub fread : (f n : ℕ) → KeepsOp P (K.fread f n)
  pub fwrite : (f : ℕ) (t : Text) → KeepsOp P (K.fwrite f t)
  pub fclose : (f : ℕ) → KeepsOp P (K.fclose f)
  pub remove : (p : Text) → W p → KeepsOp P (K.remove p)
  pub rmdir : (p : Text) → W p → KeepsOp P (K.rmdir p)
  pub unlink : (p : Text) → W p → KeepsOp P (K.unlink p)
  pub rename : (p q : Text) → W p → W q → KeepsOp P (K.rename p q)
  pub chmod : (p : Text) (m : ℕ) → W p → KeepsOp P (K.chmod p m)
  pub mkdir : (p : Text) (m : ℕ) → W p → KeepsOp P (K.mkdir p m)
  pub fopen_write : (p : Text) → W p → KeepsOp P (K.fopen_write p)

module _ (K : Calls) (P : K.State → Type 0) (W : Text → Type 0) (a : Allows K P W) where
  pub log-Keeps : (t : String) → Keeps P (note K t)
  unfolding note
  log-Keeps t = Keeps-call (a.log t)

  pub stat-Keeps : (p : Text) → Keeps P (call (K.stat p))
  stat-Keeps p = Keeps-call (a.stat p)

  pub walk-Keeps : (p : Text) → Keeps P (call (K.walk p))
  walk-Keeps p = Keeps-call (a.walk p)

  pub opendir-Keeps : (p : Text) → Keeps P (call (K.opendir p))
  opendir-Keeps p = Keeps-call (a.opendir p)

  pub closedir-Keeps : Keeps P (call K.closedir)
  closedir-Keeps = Keeps-call a.closedir

  pub fopen_read-Keeps : (p : Text) → Keeps P (call (K.fopen_read p))
  fopen_read-Keeps p = Keeps-call (a.fopen_read p)

  pub fread-Keeps : (f n : ℕ) → Keeps P (call (K.fread f n))
  fread-Keeps f n = Keeps-call (a.fread f n)

  pub fwrite-Keeps : (f : ℕ) (t : Text) → Keeps P (call (K.fwrite f t))
  fwrite-Keeps f t = Keeps-call (a.fwrite f t)

  pub fclose-Keeps : (f : ℕ) → Keeps P (call (K.fclose f))
  fclose-Keeps f = Keeps-call (a.fclose f)

  pub remove-Keeps : (p : Text) → W p → Keeps P (call (K.remove p))
  remove-Keeps p w = Keeps-call (a.remove p w)

  pub rmdir-Keeps : (p : Text) → W p → Keeps P (call (K.rmdir p))
  rmdir-Keeps p w = Keeps-call (a.rmdir p w)

  pub unlink-Keeps : (p : Text) → W p → Keeps P (call (K.unlink p))
  unlink-Keeps p w = Keeps-call (a.unlink p w)

  pub rename-Keeps : (p q : Text) → W p → W q → Keeps P (call (K.rename p q))
  rename-Keeps p q w x = Keeps-call (a.rename p q w x)

  pub chmod-Keeps : (p : Text) (m : ℕ) → W p → Keeps P (call (K.chmod p m))
  chmod-Keeps p m w = Keeps-call (a.chmod p m w)

  pub mkdir-Keeps : (p : Text) (m : ℕ) → W p → Keeps P (call (K.mkdir p m))
  mkdir-Keeps p m w = Keeps-call (a.mkdir p m w)

  pub fopen_write-Keeps : (p : Text) → W p → Keeps P (call (K.fopen_write p))
  fopen_write-Keeps p w = Keeps-call (a.fopen_write p w)

pub ruleset allows_rules = (
  keeps_rules, log-Keeps, stat-Keeps, walk-Keeps, opendir-Keeps, closedir-Keeps, fopen_read-Keeps,
  fread-Keeps, fwrite-Keeps, fclose-Keeps, remove-Keeps, rmdir-Keeps, unlink-Keeps, rename-Keeps,
  chmod-Keeps, mkdir-Keeps, fopen_write-Keeps,
)
