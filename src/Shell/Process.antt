-- ===== src/Shell/Process.antt =====
-- custom_shell/cmd_run.c and cmd_kill.c
use system_sw_gui_project.Prelude.{
  ℕ, zero, suc, Option, none, some, List, [], ◌∷◌, if◌then◌else◌, Text, neg,
}
use system_sw_gui_project.Libc.Numbers.{atoi}
use system_sw_gui_project.Run.{Run, exit, call, ◌>>=◌, ◌>>◌, skip}
use system_sw_gui_project.Shell.Paths.{is_valid_path}
use system_sw_gui_project.Shell.Paths.Bounds.{bufsiz}
use system_sw_gui_project.Shell.System.{System, say, complain, convert, attempt}
use system_sw_gui_project.Shell.Commands.{refusal}

module _ (S : System) where
  -- The switch on fork(): `none` is -1, zero is the child.
  unfoldable pub after_fork : Text → List Text → Option ℕ → Run S.State (Unit {0})
  after_fork absolute argv none = do complain S "fork"; exit 1
  after_fork absolute argv (some zero) = do
    success ← call (S.execve absolute argv)
    if success then exit 0 else complain S "execve" >> exit 1
  after_fork absolute argv (some (suc pid)) = attempt S (S.waitid (suc pid)) "waitid"

  unfoldable pub run_with : List Text → Option Text → Run S.State (Unit {0})
  unfolding after_fork
  run_with argv none = complain S "malloc"
  run_with [] (some block) = skip
  run_with (name ∷ words) (some block) = do
    absolute ← convert S block name
    if is_valid_path absolute
        then (do pid ← call S.fork; after_fork absolute (name ∷ words) pid)
        else say S refusal

  unfoldable pub cmd_run : List Text → Run S.State (Unit {0})
  unfolding run_with
  cmd_run argv = do block ← call (S.malloc bufsiz); run_with argv block

  unfoldable pub cmd_kill : List Text → Run S.State (Unit {0})
  cmd_kill (_ ∷ option ∷ target ∷ []) = attempt S (S.kill (atoi target) (neg (atoi option))) "kill"
  cmd_kill argv = say S "usage: kill [option] <PID>\n"
