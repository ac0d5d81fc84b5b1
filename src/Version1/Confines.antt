-- ===== src/Version1/Confines.antt =====
-- The sandbox of the first version of the shell.
use system_sw_gui_project.Prelude.{
  ℕ, zero, suc, Bool, true, false, Option, none, some, List, [], ◌∷◌, Text,
}
use system_sw_gui_project.Run.{Op, Run, call, skip}
use system_sw_gui_project.Run.Keeps.{Keeps, KeepsOp, Keeps-bind, Keeps-call, Keeps-if, Keeps-crash}
use system_sw_gui_project.Shell.System.{System, Stat}
use system_sw_gui_project.Shell.Confines.{Confines, confines_rules}
use system_sw_gui_project.Version2.Paths.{home, result_of}
use system_sw_gui_project.Version2.Main.{Round, go_on, leave}
use system_sw_gui_project.Version2.Confines.Commands.{
  home-valid, Confined, change_path-Keeps, change_pair-Keeps, go_home-Keeps, cd_to-Keeps,
}
use system_sw_gui_project.Version1.Commands.{
  convert, change_with, create_directory, delete_directory, rename_with, rename_directory,
  move_with, move_directory, name_of, print_entry, list_entries, list_opened,
}
use system_sw_gui_project.Version1.Main.{
  help, run_command, run_tokens, read_command, show_prompt, prompt, one_round, rounds, enter_home,
  with_command, with_block, main,
}

module _ (S : System) (P : S.State → Type 0) (c : Confines S P)
    (stat : Text → Op S.State (Option Stat)) (stat_confined : (p : Text) → KeepsOp P (stat p)) where
  result_of-Keeps : (b a : Text) (o : Option Text) → Keeps P (result_of S b a o)
  result_of-Keeps b a none = search confines_rules
  result_of-Keeps b a (some block) = search confines_rules

  convert-Keeps : (d b : Text) (o : Option Text) → Keeps P (convert S d b o)
  unfolding convert
  convert-Keeps d b none = search confines_rules
  convert-Keeps d b (some r) = search (confines_rules, result_of-Keeps)

  change_with-Keeps :
      (op : Text → Op S.State Bool) (o : Option Text) (d : Text) (b : Option Text)
      → Confined S P c op
      → Keeps P (change_with S op o d b)
  unfolding change_with
  change_with-Keeps op o d none k = search confines_rules
  change_with-Keeps op o d (some b) k =
      Keeps-bind _ _ (convert-Keeps d b o) (λ a. change_path-Keeps S P c op a k)

  create_directory-Keeps : (o : Option Text) (d : Text) → Keeps P (create_directory S o d)
  unfolding create_directory
  create_directory-Keeps o d =
      Keeps-bind _ _ (search confines_rules)
        (λ b. change_with-Keeps _ o d b (λ p v. c.mkdir p 0o755 v))

  delete_directory-Keeps : (o : Option Text) (d : Text) → Keeps P (delete_directory S o d)
  unfolding delete_directory
  delete_directory-Keeps o d =
      Keeps-bind _ _ (search confines_rules) (λ b. change_with-Keeps _ o d b c.rmdir)

  rename_with-Keeps :
      (o n : Option Text) (d : Text) (b b' : Option Text) → Keeps P (rename_with S o n d b b')
  unfolding rename_with
  rename_with-Keeps o n d (some b) (some b') = Keeps-bind _ _ (convert-Keeps d b o) (λ p.
      Keeps-bind _ _ (convert-Keeps d b' n)
        (λ q. change_pair-Keeps S P c S.rename "rename" p q c.rename))
  rename_with-Keeps o n d (some b) none = search confines_rules
  rename_with-Keeps o n d none b' = search confines_rules

  rename_directory-Keeps : (o n : Option Text) (d : Text) → Keeps P (rename_directory S o n d)
  unfolding rename_directory
  rename_directory-Keeps o n d = search (confines_rules, rename_with-Keeps)

  move_with-Keeps : (p d : Text) (b : Option Text) → Keeps P (move_with S p d b)
  unfolding move_with
  move_with-Keeps p d none = search confines_rules
  move_with-Keeps p d (some b) = Keeps-bind _ _ (convert-Keeps d b (some p)) (cd_to-Keeps S P c)

  home-Keeps : Keeps P (system_sw_gui_project.Version2.Commands.go_home S)
  home-Keeps = go_home-Keeps S P c

  move_directory-Keeps : (p d : Text) → Keeps P (move_directory S p d)
  unfolding move_directory
  move_directory-Keeps p d = search (confines_rules, home-Keeps, move_with-Keeps)

  name_of-Keeps : (o : Option Text) → Keeps P (name_of S o)
  unfolding name_of
  name_of-Keeps none = search confines_rules
  name_of-Keeps (some name) = search confines_rules

  print_entry-Keeps : (p name : Text) (o : Option Stat) → Keeps P (print_entry S p name o)
  unfolding print_entry
  print_entry-Keeps p name none = search confines_rules
  print_entry-Keeps p name (some st) = search (confines_rules, name_of-Keeps) depth 16

  stat-Keeps : (p : Text) → Keeps P (call (stat p))
  stat-Keeps p = Keeps-call (stat_confined p)

  list_entries-Keeps :
      (d : Text) (entries : List (Text × ℕ)) → Keeps P (list_entries S stat d entries)
  unfolding list_entries
  list_entries-Keeps d [] = search confines_rules
  list_entries-Keeps d ((name, type) ∷ entries) =
      Keeps-if _ _ _ (λ _. Keeps-crash)
        (Keeps-bind _ _ (stat-Keeps _)
          (λ st. Keeps-bind _ _ (print_entry-Keeps _ name st) (λ _. list_entries-Keeps d entries)))

  list_opened-Keeps : (d : Text) (o : Option (List (Text × ℕ))) → Keeps P (list_opened S stat d o)
  unfolding list_opened
  list_opened-Keeps d none = search confines_rules
  list_opened-Keeps d (some entries) = list_entries-Keeps d entries

  help-Keeps : Keeps P (help S stat)
  unfolding help
  help-Keeps = search confines_rules depth 12

  run_command-Keeps :
      (d name : Text) (rest : List Text) (dp : Option (List (Text × ℕ)))
      → Keeps P (run_command S stat d name rest dp)
  unfolding run_command
  run_command-Keeps d name rest dp =
      search
        (
          confines_rules, help-Keeps, create_directory-Keeps, delete_directory-Keeps,
          rename_directory-Keeps, move_directory-Keeps, list_opened-Keeps,
        )
        depth 12

  run_tokens-Keeps :
      (d : Text) (dp : Option (List (Text × ℕ))) (words : List Text)
      → Keeps P (run_tokens S stat d dp words)
  unfolding run_tokens
  run_tokens-Keeps d dp [] = search confines_rules
  run_tokens-Keeps d dp (name ∷ rest) = search (confines_rules, run_command-Keeps) depth 8

  read_command-Keeps :
      (d : Text) (dp : Option (List (Text × ℕ))) (o : Option Text)
      → Keeps P (read_command S stat d dp o)
  unfolding read_command
  read_command-Keeps d dp none = search confines_rules
  read_command-Keeps d dp (some line) = run_tokens-Keeps d dp _

  show_prompt-Keeps : (t : Text) (o : Option Text) → Keeps P (show_prompt S stat t o)
  unfolding show_prompt
  show_prompt-Keeps t none = search confines_rules
  show_prompt-Keeps t (some b) = search confines_rules

  prompt-Keeps : (t : Text) → Keeps P (prompt S stat t)
  unfolding prompt
  prompt-Keeps t = search (confines_rules, show_prompt-Keeps) depth 8

  one_round-Keeps : Keeps P (one_round S stat)
  unfolding one_round
  one_round-Keeps = search (confines_rules, prompt-Keeps, read_command-Keeps) depth 10

  leave-Keeps :
      (rest : Run S.State (Unit {0})) (next : Round)
      → Keeps P rest
      → Keeps P (elim next as (λ _. Run S.State (Unit {0})) [ go_on ↦ rest | leave ↦ skip ])
  leave-Keeps rest go_on k = k
  leave-Keeps rest leave k = search confines_rules

  rounds-Keeps : (n : ℕ) → Keeps P (rounds S stat n)
  unfolding rounds
  rounds-Keeps zero = search confines_rules
  rounds-Keeps (suc n) =
      Keeps-bind _ _ one_round-Keeps (λ next. leave-Keeps _ next (rounds-Keeps n))

  enter_home-Keeps : (b : Bool) → Keeps P (enter_home S stat b)
  unfolding enter_home
  enter_home-Keeps true = search confines_rules
  enter_home-Keeps false =
      Keeps-bind _ _ (Keeps-call (c.mkdir home 0o755 home-valid)) (λ _. home-Keeps)

  with_command-Keeps : (n : ℕ) (o : Option Text) → Keeps P (with_command S stat n o)
  unfolding with_command
  with_command-Keeps n none = search confines_rules
  with_command-Keeps n (some b) =
      Keeps-bind _ _ (Keeps-call (c.chdir home home-valid))
        (λ entered. Keeps-bind _ _ (enter_home-Keeps entered) (λ _. rounds-Keeps n))

  with_block-Keeps : (n : ℕ) (o : Option Text) → Keeps P (with_block S stat n o)
  unfolding with_block
  with_block-Keeps n none = search confines_rules
  with_block-Keeps n (some b) = search (confines_rules, with_command-Keeps)

  -- The first version of the shell, whatever lines are typed, for however many rounds, and however
  -- calls fail: a property of the system that every call keeps, where the calls that change names
  -- or the current directory only have to keep it for paths that is_valid_path accepts, still
  -- holds when the shell ends or its rounds are used up.
  pub first_version_confined : (n : ℕ) (s : S.State) → P s → P (main S stat n s).1
  unfolding main
  first_version_confined n s h =
      let k : Keeps P (main S stat n) = search (confines_rules, with_block-Keeps) in k.at s h
