-- ===== src/Shell/Main.antt =====
-- custom_shell/main.c and cmd_help.c. Every ENABLE_CMD_ macro of config.h is defined, so all the
-- commands are in the table.
use system_sw_gui_project.Prelude.{
  ℕ, zero, suc, ◌+◌, ◌-◌, Bool, true, false, ◌||◌, Option, none, some, List, [], ◌∷◌, ◌++◌, ◌==◌,
  if◌then◌else◌, String, Text, codes, length, drop, take,
}
use system_sw_gui_project.Libc.Strings.{str_eq, tokens}
use system_sw_gui_project.Run.{Run, pure, exit, crash, starve, call, ◌>>=◌, ◌>>◌, skip}
use system_sw_gui_project.Shell.Paths.{base_path}
use system_sw_gui_project.Shell.System.{System, print, say, complain, bytes}
use system_sw_gui_project.Shell.Commands.{cmd_mkdir, cmd_rmdir, cmd_rename, cmd_cd, cmd_ln, cmd_rm}
use system_sw_gui_project.Shell.Streams.{cmd_cat, cmd_cp}
use system_sw_gui_project.Shell.Chmod.{cmd_chmod}
use system_sw_gui_project.Shell.Ls.{cmd_ls}
use system_sw_gui_project.Shell.Process.{cmd_run, cmd_kill}

-- The functions of cmd_list.
pub data Command : Type 0 where
  help mkdir rmdir rename cd ls ln rm chmod cat cp ps kill : Command

unfoldable pub cmd_list : List (Text × Command)
cmd_list =
    (codes "help", help)
    ∷ (codes "mkdir", mkdir)
    ∷ (codes "rmdir", rmdir)
    ∷ (codes "rename", rename)
    ∷ (codes "cd", cd)
    ∷ (codes "ls", ls)
    ∷ (codes "ln", ln)
    ∷ (codes "rm", rm)
    ∷ (codes "chmod", chmod)
    ∷ (codes "cat", cat)
    ∷ (codes "cp", cp)
    ∷ (codes "ps", ps)
    ∷ (codes "kill", kill)
    ∷ []

-- The first entry with the name. The source returns its index, or -1.
unfoldable pub search_command : List (Text × Command) → Text → Option Command
search_command [] cmd = none
search_command ((cmd_str, cmd_func) ∷ commands) cmd =
    let rest = search_command commands cmd in if str_eq cmd cmd_str then some cmd_func else rest

-- MAX_CMD_SIZE and MAX_ARG
abbrev pub max_cmd_size : ℕ
max_cmd_size = 128

abbrev pub max_arg : ℕ
max_arg = 4

abbrev pub is_blank : ℕ → Bool
is_blank c = c == b' ' || c == 10

-- tok_str: the first MAX_ARG words of the line; their number is cmd_argc.
unfoldable pub words : Text → List Text
words line = take max_arg (tokens is_blank line)

unfoldable pub help_lines : List String
help_lines =
    "Available commands:\n" ∷ "---------------------------------------------------------------\n"
    ∷ "cd <path>               : Change to the specified directory.\n"
    ∷ "mkdir [-m mode] <directory> : Create a new directory at the specified path.\n"
    ∷ "rmdir <path>            : Remove an empty directory at the specified path.\n"
    ∷ "rename <source> <target>: Rename a file or directory from source to target.\n"
    ∷ "ls [-al] <path>         : List the contents of the current directory.\n"
    ∷ "ln [-s] <original> <link>    : Create a hard link from original to link.\n"
    ∷ "rm <path>              \t: Remove a file at the specified path.\n"
    ∷ "cat <filename>         \t: Display the contents of the specified file.\n"
    ∷ "cp <source> <destination>: Copy a file from source to destination.\n"
    ∷ "ps [-ef]               : Display a list of currently running processes.\n"
    ∷ "kill <pid>              : Terminate a process by its process ID (PID).\n"
    ∷ "chmod [mode] <target>    : Change the access permissions of a file or directory.\n"
    ∷ "help                    : Show this help message.\n"
    ∷ "---------------------------------------------------------------\n" ∷ []

-- What a round of the loop says about the next one.
pub data Next : Type 0 where
  again stop : Next

module _ (S : System) (cmd_ps : List Text → Run S.State (Unit {0})) (fuel : ℕ) where
  unfoldable pub say_all : List String → Run S.State (Unit {0})
  say_all [] = skip
  say_all (line ∷ lines) = do say S line; say_all lines

  unfoldable pub cmd_help : List Text → Run S.State (Unit {0})
  unfolding say_all help_lines
  cmd_help argv = say_all help_lines

  unfoldable pub run_command : Command → List Text → Run S.State (Unit {0})
  unfolding cmd_help
  run_command help = cmd_help
  run_command mkdir = cmd_mkdir S
  run_command rmdir = cmd_rmdir S
  run_command rename = cmd_rename S
  run_command cd = cmd_cd S
  run_command ls = cmd_ls S
  run_command ln = cmd_ln S
  run_command rm = cmd_rm S
  run_command chmod = cmd_chmod S
  run_command cat = cmd_cat S fuel
  run_command cp = cmd_cp S fuel
  run_command ps = cmd_ps
  run_command kill = cmd_kill S

  unfoldable pub not_found : Text → Run S.State (Unit {0})
  not_found name = print S (bytes (name ++ codes " : command not found\n"))

  -- A name that is in no entry, alone on its line, is a program to run.
  unfoldable pub dispatch_to : Option Command → Text → List Text → Run S.State (Unit {0})
  unfolding run_command not_found
  dispatch_to (some command) name arguments = run_command command (name ∷ arguments)
  dispatch_to none name [] = cmd_run S (name ∷ [])
  dispatch_to none name (_ ∷ _) = not_found name

  unfoldable pub dispatch : List Text → Run S.State Next
  unfolding dispatch_to
  dispatch [] = pure again
  dispatch (name ∷ arguments) = if str_eq name (codes "quit") then pure stop else (do
    print S (bytes (codes "your command: " ++ name ++ codes "\n"))
    dispatch_to (search_command cmd_list name) name arguments
    pure again)

  unfoldable pub prompt_other : Text → Option Text → Run S.State (Unit {0})
  prompt_other current none = crash
  prompt_other current (some block) =
      print S (bytes (drop (length base_path) current ++ codes " $ "))

  unfoldable pub prompt : Run S.State (Unit {0})
  unfolding prompt_other
  prompt = do
    current ← call S.getcwd
    if str_eq current base_path then say S "/ $ " else (do
      block ← call (S.malloc (length current + length base_path + 1))
      prompt_other current block)

  unfoldable pub read_line : Option Text → Run S.State Next
  read_line none = pure stop
  read_line (some line) = dispatch (words line)

  -- One round of the do-while loop.
  unfoldable pub round : Run S.State Next
  unfolding prompt read_line
  round = do prompt; line ← call (S.fgets (max_cmd_size - 1)); read_line line

  unfoldable pub rounds : ℕ → Run S.State (Unit {0})
  rounds zero = starve
  rounds (suc n) = do next ← round; elim next [ again ↦ rounds n | stop ↦ skip ]

  unfoldable pub home_made : Bool → Run S.State (Unit {0})
  home_made true = skip
  home_made false = do
    call (S.mkdir base_path 0o755)
    success ← call (S.chdir base_path)
    if success then skip else complain S "chdir" >> exit 1

  unfoldable pub allocated : ℕ → Option Text → Run S.State (Unit {0})
  unfolding home_made
  allocated n none = do complain S "malloc"; exit 1
  allocated n (some command) = do success ← call (S.chdir base_path); home_made success; rounds n

  -- main, for at most n rounds.
  unfoldable pub main : ℕ → Run S.State (Unit {0})
  unfolding allocated
  main n = do
    handled ← call S.ignore_interrupts
    if handled
        then (do command ← call (S.malloc max_cmd_size); allocated n command)
        else complain S "signal" >> exit 1
