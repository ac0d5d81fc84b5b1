-- ===== src/Version1/Main.antt =====
-- main and help of dir_manage_ver1/manage_dir.c.
use system_sw_gui_project.Prelude.{
  ℕ, zero, suc, ◌+◌, Bool, true, false, Option, none, some, List, [], ◌∷◌, ◌++◌, if◌then◌else◌,
  Text, codes, length, drop,
}
use system_sw_gui_project.Libc.Strings.{str_eq, tokens}
use system_sw_gui_project.Run.{Op, Run, pure, exit, crash, starve, call, ◌>>=◌, ◌>>◌, skip}
use system_sw_gui_project.Shell.System.{System, Stat, print, say, complain, bytes}
use system_sw_gui_project.Version2.Paths.{home}
use system_sw_gui_project.Version2.Commands.{go_home}
use system_sw_gui_project.Version2.Main.{Round, go_on, leave, separates}
use system_sw_gui_project.Version1.Commands.{
  path_block, create_directory, delete_directory, rename_directory, move_directory, list_opened,
}

-- What strtok(NULL, " \n") returns next: the first of the tokens that are left.
abbrev pub first_of : List Text → Option Text
first_of [] = none
first_of (token ∷ tokens) = some token

abbrev pub second_of : List Text → Option Text
second_of [] = none
second_of (token ∷ tokens) = first_of tokens

-- tok_str[1] ? tok_str[1] : "~"
abbrev pub or_home : Option Text → Text
or_home none = codes "~"
or_home (some path) = path

module _ (S : System) (stat : Text → Op S.State (Option Stat)) where
  unfoldable pub help : Run S.State (Unit {0})
  help = do
    say S "cd <path> : move to the specified directory\n"
    say S "mkdir <path> : cre시ate a directory at the specified path\n"
    say S "rmdir <path> : remove the directory at the specified path\n"
    say S "rename <source> <target> : rename the source directory to the target name\n"
    say S "ls : list contents and information of the current directory\n"

  -- The tests of tok_str[0], with the tokens behind it and what opendir has returned. Another word
  -- does nothing.
  unfoldable pub run_command :
      Text → Text → List Text → Option (List (Text × ℕ)) → Run S.State (Unit {0})
  unfolding help
  run_command current_dir name rest dp =
      if str_eq name (codes "help")
      then help
      else if str_eq name (codes "mkdir")
      then create_directory S (first_of rest) current_dir
      else if str_eq name (codes "rmdir")
      then delete_directory S (first_of rest) current_dir
      else if str_eq name (codes "rename")
      then rename_directory S (first_of rest) (second_of rest) current_dir
      else if str_eq name (codes "cd")
      then move_directory S (or_home (first_of rest)) current_dir
      else if str_eq name (codes "ls")
      then list_opened S stat current_dir dp
      else skip

  unfoldable pub run_tokens : Text → Option (List (Text × ℕ)) → List Text → Run S.State Round
  unfolding run_command
  run_tokens current_dir dp [] = pure go_on
  run_tokens current_dir dp (name ∷ rest) = if str_eq name (codes "quit") then pure leave else (do
    print S (bytes (codes "your command: " ++ name ++ codes "\n"))
    run_command current_dir name rest dp
    pure go_on)

  unfoldable pub read_command : Text → Option (List (Text × ℕ)) → Option Text → Run S.State Round
  unfolding run_tokens
  read_command current_dir dp none = pure leave
  read_command current_dir dp (some command) = run_tokens current_dir dp (tokens separates command)

  -- strcpy through the null pointer, if there is no memory for appearance_dir.
  unfoldable pub show_prompt : Text → Option Text → Run S.State (Unit {0})
  show_prompt current_dir none = crash
  show_prompt current_dir (some block) =
      print S (bytes (drop (length home) current_dir ++ codes " $ "))

  unfoldable pub prompt : Text → Run S.State (Unit {0})
  unfolding show_prompt
  prompt current_dir = if str_eq current_dir home then say S "/ $ " else (do
    block ← call (S.malloc (length current_dir + length home + 1))
    show_prompt current_dir block)

  unfoldable pub one_round : Run S.State Round
  unfolding prompt read_command
  one_round = do
    current_dir ← call S.getcwd
    prompt current_dir
    dp ← call (S.opendir current_dir)
    command ← call (S.fgets 127)
    read_command current_dir dp command

  unfoldable pub rounds : ℕ → Run S.State (Unit {0})
  unfolding one_round
  rounds zero = starve
  rounds (suc n) = do next ← one_round; elim next [ go_on ↦ rounds n | leave ↦ skip ]

  unfoldable pub enter_home : Bool → Run S.State (Unit {0})
  enter_home true = skip
  enter_home false = do call (S.mkdir home 0o755); go_home S

  unfoldable pub with_command : ℕ → Option Text → Run S.State (Unit {0})
  unfolding rounds enter_home
  with_command n none = do complain S "malloc"; exit 1
  with_command n (some command) = do entered ← call (S.chdir home); enter_home entered; rounds n

  unfoldable pub with_block : ℕ → Option Text → Run S.State (Unit {0})
  unfolding with_command
  with_block n none = do complain S "malloc"; exit 1
  with_block n (some file_path) = do command ← call (S.malloc 128); with_command n command

  -- main, for at most n rounds.
  unfoldable pub main : ℕ → Run S.State (Unit {0})
  unfolding with_block
  main n = do file_path ← call (S.malloc path_block); with_block n file_path
