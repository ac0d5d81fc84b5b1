-- ===== src/Backend/Calls.antt =====
-- What backend.c calls: the C library's and the kernel's functions, which are parameters.
use system_sw_gui_project.Prelude.{if◌then◌else◌, ℕ, String, Bool, Option, List, Text}
use system_sw_gui_project.Libc.Strings.{truncate}
use system_sw_gui_project.Run.{Op, Run, call, ◌>>=◌}

-- S_ISREG, S_ISDIR, or neither, of what stat finds.
pub data Kind : Type 0 where
  regular directory other : Kind

-- A call that fails with EEXIST, or otherwise.
pub data Made : Type 0 where
  made eexist failed : Made

-- struct mymsgbuf: mtext up to its terminating zero.
pub record Message : Type 0 where
  pub mtype : ℕ
  pub mtext : Text

-- A Boolean result is true for success. `walk` gives the paths that nftw visits under
-- FTW_DEPTH | FTW_PHYS, or fails; `stat` gives the kind and st_mode; `opendir` gives the names that
-- readdir returns; `log` is printf and perror, with the text of a
-- line less its arguments; `create` makes an empty file if there is none.
pub record Calls : Type 1 where
  pub State : Type 0
  pub log : String → Op State (Unit {0})
  pub stat : Text → Op State (Option (Kind × ℕ))
  pub walk : Text → Op State (Option (List Text))
  pub remove : Text → Op State Bool
  pub rmdir : Text → Op State Bool
  pub unlink : Text → Op State Bool
  pub rename : Text → Text → Op State Bool
  pub chmod : Text → ℕ → Op State Bool
  pub mkdir : Text → ℕ → Op State Made
  pub symlink : Text → Text → Op State Made
  pub opendir : Text → Op State (Option (List Text))
  pub closedir : Op State (Unit {0})
  pub fopen_read : Text → Op State (Option ℕ)
  pub fopen_write : Text → Op State (Option ℕ)
  pub fread : ℕ → ℕ → Op State Text
  pub fwrite : ℕ → Text → Op State ℕ
  pub fclose : ℕ → Op State (Unit {0})
  pub malloc : ℕ → Op State Bool
  pub create : Text → Op State Bool
  pub ftok : Text → Op State (Option ℕ)
  pub msgget : ℕ → Op State (Option ℕ)
  pub msgrcv : ℕ → Op State (Option Message)
  pub msgsnd : ℕ → Message → Op State Bool
  pub dirname : Text → Text

-- sizeof(mtext) - 1
abbrev pub text_max : ℕ
text_max = 255

module _ (K : Calls) where
  unfoldable pub note : String → Run K.State (Unit {0})
  note text = call (K.log text)

  -- The message that send_response puts into the queue.
  abbrev pub response : ℕ → Text → Message
  response mtype message = record { mtype = mtype; mtext = truncate text_max message }

  unfoldable pub send_response : ℕ → ℕ → Text → Run K.State (Unit {0})
  unfolding note
  send_response msgid mtype message = do
    sent ← call (K.msgsnd msgid (response mtype message))
    note (if sent then "Response sent: %s\n" else "msgsnd (response)")
