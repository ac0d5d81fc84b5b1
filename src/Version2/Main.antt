-- ===== src/Version2/Main.antt =====
-- The command table, cmd_help and main of dir_manage_ver2/manage_dir.c.
use system_sw_gui_project.Prelude.{
  ℕ, zero, suc, ◌+◌, Bool, true, false, ◌||◌, Option, none, some, List, [], ◌∷◌, ◌++◌, ◌==◌,
  if◌then◌else◌, String, Text, codes, length, drop, take,
}
use system_sw_gui_project.Libc.Strings.{str_eq, tokens}
use system_sw_gui_project.Run.{Op, Run, pure, exit, crash, starve, call, ◌>>=◌, ◌>>◌, skip}
use system_sw_gui_project.Shell.System.{System, Stat, print, say, complain, bytes}
use system_sw_gui_project.Version2.Paths.{home}
use system_sw_gui_project.Version2.Commands.{
  cmd_mkdir, cmd_rmdir, cmd_rename, cmd_cd, cmd_ln, cmd_rm, go_home,
}
use system_sw_gui_project.Version2.Streams.{cmd_cat, cmd_cp}
use system_sw_gui_project.Version2.Chmod.{cmd_chmod}
use system_sw_gui_project.Version2.Ls.{cmd_ls}

-- The functions of cmd_list.
pub data Function : Type 0 where
  help mkdir rmdir rename cd ls ln rm chmod cat cp : Function

unfoldable pub cmd_list : List (Text × Function)
cmd_list =
    (codes "help", help)
    ∷ (codes "mkdir", mkdir)
    ∷ (codes "rmdir", rmdir)
    ∷ (codes "rename", rename)
    ∷ (codes "cd", cd)
    ∷ (codes "ls", ls)
    ∷ (codes "ln", ln)
    ∷ (codes "rm", rm)
    ∷ (codes "chmod", chmod)
    ∷ (codes "cat", cat)
    ∷ (codes "cp", cp)
    ∷ []

-- The index of the first entry with the name, from `i` on; `none` is -1.
unfoldable pub search_command : Text → ℕ → List (Text × Function) → Option ℕ
search_command cmd i [] = none
search_command cmd i ((cmd_str, _) ∷ entries) =
    let rest = search_command cmd (i + 1) entries in if str_eq cmd cmd_str then some i else rest

-- cmd_list[i].cmd_func
unfoldable pub function_at : List (Text × Function) → ℕ → Option Function
function_at [] i = none
function_at ((_, cmd_func) ∷ entries) zero = some cmd_func
function_at (_ ∷ entries) (suc i) = function_at entries i

abbrev pub separates : ℕ → Bool
separates c = c == b' ' || c == 10

-- At most MAX_ARG words.
unfoldable pub tok_str : Text → List Text
tok_str line = take 4 (tokens separates line)

unfoldable pub help_text : List String
help_text =
    "cd <path> : move to the specified directory\n"
    ∷ "mkdir <path> : cre시ate a directory at the specified path\n"
    ∷ "rmdir <path> : remove the directory at the specified path\n"
    ∷ "rename <source> <target> : rename the source directory to the target name\n"
    ∷ "ls : list contents and information of the current directory\n"
    ∷ "ln <original file> <new file> : create a hard link using link() to the target file with the specified link name\n"
    ∷ "rm <path> : remove a file using unlink() at the specified path\n"
    ∷ "cat <filename> : display the contents of the specified file on the standard output\n"
    ∷ "cp <original file> <new file> : copy the contents of the original file to the new file\n"
    ∷ []

-- Whether the loop goes on.
pub data Round : Type 0 where
  go_on leave : Round

module _ (S : System) (stat : Text → Op S.State (Option Stat)) (fuel : ℕ) where
  unfoldable pub say_lines : List String → Run S.State (Unit {0})
  say_lines [] = skip
  say_lines (line ∷ lines) = do say S line; say_lines lines

  unfoldable pub cmd_help : List Text → Run S.State (Unit {0})
  unfolding say_lines help_text
  cmd_help argv = say_lines help_text

  unfoldable pub run_function : Function → List Text → Run S.State (Unit {0})
  unfolding cmd_help
  run_function help = cmd_help
  run_function mkdir = cmd_mkdir S
  run_function rmdir = cmd_rmdir S
  run_function rename = cmd_rename S
  run_function cd = cmd_cd S
  run_function ls = cmd_ls S stat
  run_function ln = cmd_ln S
  run_function rm = cmd_rm S
  run_function chmod = cmd_chmod S
  run_function cat = cmd_cat S fuel
  run_function cp = cmd_cp S fuel

  unfoldable pub run_found : Option Function → List Text → Run S.State (Unit {0})
  unfolding run_function
  run_found none argv = say S "no command function\n"
  run_found (some cmd_func) argv = run_function cmd_func argv

  unfoldable pub run_index : Option ℕ → Text → List Text → Run S.State (Unit {0})
  unfolding run_found function_at
  run_index none name argv = print S (bytes (name ++ codes " : command not found\n"))
  run_index (some i) name argv = run_found (function_at cmd_list i) argv

  unfoldable pub run_words : List Text → Run S.State Round
  unfolding run_index search_command
  run_words [] = pure go_on
  run_words (name ∷ arguments) = if str_eq name (codes "quit") then pure leave else (do
    print S (bytes (codes "your command: " ++ name ++ codes "\n"))
    run_index (search_command name 0 cmd_list) name (name ∷ arguments)
    pure go_on)

  -- strcpy through the null pointer, if there is no memory for appearance_dir.
  unfoldable pub show_prompt : Text → Option Text → Run S.State (Unit {0})
  show_prompt current none = crash
  show_prompt current (some block) = print S (bytes (drop (length home) current ++ codes " $ "))

  unfoldable pub prompt : Run S.State (Unit {0})
  unfolding show_prompt
  prompt = do
    current ← call S.getcwd
    if str_eq current home then say S "/ $ " else (do
      block ← call (S.malloc (length current + length home + 1))
      show_prompt current block)

  unfoldable pub read_command : Option Text → Run S.State Round
  unfolding run_words tok_str
  read_command none = pure leave
  read_command (some line) = run_words (tok_str line)

  unfoldable pub one_round : Run S.State Round
  unfolding prompt read_command
  one_round = do prompt; line ← call (S.fgets 127); read_command line

  unfoldable pub shell_loop : ℕ → Run S.State (Unit {0})
  unfolding one_round
  shell_loop zero = starve
  shell_loop (suc n) = do next ← one_round; elim next [ go_on ↦ shell_loop n | leave ↦ skip ]

  unfoldable pub enter_home : Bool → Run S.State (Unit {0})
  enter_home true = skip
  enter_home false = do call (S.mkdir home 0o755); go_home S

  unfoldable pub start : ℕ → Option Text → Run S.State (Unit {0})
  unfolding shell_loop enter_home
  start n none = do complain S "malloc"; exit 1
  start n (some command) = do entered ← call (S.chdir home); enter_home entered; shell_loop n

  -- main, for at most n rounds.
  unfoldable pub main : ℕ → Run S.State (Unit {0})
  unfolding start
  main n = do command ← call (S.malloc 128); start n command
