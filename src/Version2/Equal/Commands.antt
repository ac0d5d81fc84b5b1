-- ===== src/Version2/Equal/Commands.antt =====
-- Commands that are the same in both versions.
use system_sw_gui_project.Prelude.{
  ℕ, zero, suc, ◌≡◌, refl, ap, ◌∙◌, Bool, true, false, Option, none, some, List, [], ◌∷◌, ◌==◌,
  if◌then◌else◌, Text,
}
use system_sw_gui_project.Run.{Run, call, ◌>>=◌, ◌>>◌, skip}
use system_sw_gui_project.Shell.Paths.Bounds.{bufsiz}
use system_sw_gui_project.Shell.System.{System, print, say, bytes}
use system_sw_gui_project.Shell
use system_sw_gui_project.Shell.Commands.{checked_pair, refusal}
use system_sw_gui_project.Shell.Streams.{is_eof, byte_of, cat_loop, cat_file}
use system_sw_gui_project.Shell.Chmod.{chmod_to, chmod_known}
use system_sw_gui_project.Version2.Paths.{is_valid_path}
use system_sw_gui_project.Version2.Commands.{
  change_pair, two_paths, change_path, rename_with, cmd_rename,
}
use system_sw_gui_project.Version2.Streams.{kept_char, show_file, show_opened, cat_with, cmd_cat}
use system_sw_gui_project.Version2.Chmod.{chmod_format, change_to, with_mode, chmod_with, cmd_chmod}
use system_sw_gui_project.Version2.Equal.Paths.{convert_same, convert_into_same}
use system_sw_gui_project.Version2.Equal.Modes.{IsCString, chmod_format_same}

module _ (S : System) where
  rename_with_same :
      (argv : List Text) (b b' : Option Text)
      → rename_with S argv b b' ≡ Shell.Commands.rename_with S argv b b'
  unfolding rename_with Shell.Commands.rename_with two_paths change_pair checked_pair is_valid_path
      Shell.Paths.is_valid_path
  rename_with_same (n ∷ old ∷ new ∷ []) (some b) (some b') = λ i. convert_same S b old i >>= λ o.
      convert_same S b' new i >>= λ p. change_pair S S.rename "rename" o p
  rename_with_same [] (some b) (some b') = refl
  rename_with_same (n ∷ []) (some b) (some b') = refl
  rename_with_same (n ∷ old ∷ []) (some b) (some b') = refl
  rename_with_same (n ∷ old ∷ new ∷ x ∷ argv) (some b) (some b') = refl
  rename_with_same [] (some b) none = refl
  rename_with_same (n ∷ []) (some b) none = refl
  rename_with_same (n ∷ old ∷ []) (some b) none = refl
  rename_with_same (n ∷ old ∷ new ∷ []) (some b) none = refl
  rename_with_same (n ∷ old ∷ new ∷ x ∷ argv) (some b) none = refl
  rename_with_same [] none b' = refl
  rename_with_same (n ∷ []) none b' = refl
  rename_with_same (n ∷ old ∷ []) none b' = refl
  rename_with_same (n ∷ old ∷ new ∷ []) none b' = refl
  rename_with_same (n ∷ old ∷ new ∷ x ∷ argv) none b' = refl

  pub cmd_rename_same : (argv : List Text) → cmd_rename S argv ≡ Shell.Commands.cmd_rename S argv
  unfolding cmd_rename Shell.Commands.cmd_rename
  cmd_rename_same argv = λ i.
      call (S.malloc bufsiz) >>= λ b. call (S.malloc bufsiz) >>= λ b'. rename_with_same argv b b' i

  -- A round of both loops over a file, with the rounds that follow.
  abbrev after_char : Run S.State (Unit {0}) → Option ℕ → Run S.State (Unit {0})
  after_char rest ch = elim (kept_char ch) as (λ _. Run S.State (Unit {0})) [
    | none ↦ skip
    | some c ↦ print S (bytes (c ∷ [])) >> rest
  ]

  abbrev after_byte : Run S.State (Unit {0}) → Option ℕ → Run S.State (Unit {0})
  after_byte rest ch = elim (is_eof S ch) as (λ _. Run S.State (Unit {0})) [
    | true ↦ skip
    | false ↦ print S (bytes (byte_of S ch)) >> rest
  ]

  tested :
      (rest : Run S.State (Unit {0})) (c : ℕ) (b : Bool)
      → (elim (if b then none else some c) as (λ _. Run S.State (Unit {0})) [
        | none ↦ skip
        | some d ↦ print S (bytes (d ∷ [])) >> rest
      ])
        ≡ (elim b as (λ _. Run S.State (Unit {0})) [
          | true ↦ skip
          | false ↦ print S (bytes (c ∷ [])) >> rest
        ])
  tested rest c true = refl
  tested rest c false = refl

  char_same :
      (rest : Run S.State (Unit {0})) (ch : Option ℕ) → after_char rest ch ≡ after_byte rest ch
  unfolding kept_char is_eof
  char_same rest none = refl
  char_same rest (some c) = tested rest c (c == 255)

  show_file_same : (fuel file : ℕ) → show_file S fuel file ≡ cat_loop S fuel file
  unfolding show_file cat_loop
  show_file_same zero file = refl
  show_file_same (suc fuel) file = λ i. call (S.fgetc file) >>= λ ch.
      (char_same (show_file S fuel file) ch ∙ ap (λ r. after_byte r ch) (show_file_same fuel file))
        i

  show_opened_same : (fuel : ℕ) (o : Option ℕ) → show_opened S fuel o ≡ cat_file S fuel o
  unfolding show_opened cat_file
  show_opened_same fuel none = refl
  show_opened_same fuel (some file) = λ i. show_file_same fuel file i >> call (S.fclose file)

  cat_with_same :
      (fuel : ℕ) (argv : List Text) (b : Option Text)
      → cat_with S fuel argv b ≡ Shell.Streams.cat_with S fuel argv b
  unfolding cat_with Shell.Streams.cat_with is_valid_path Shell.Paths.is_valid_path
  cat_with_same fuel (n ∷ path ∷ []) b = λ i. convert_into_same S b path i >>= λ absolute.
      if is_valid_path absolute
      then (call (S.fopen_read path) >>= λ file. show_opened_same fuel file i)
      else say S refusal
  cat_with_same fuel [] b = refl
  cat_with_same fuel (n ∷ []) b = refl
  cat_with_same fuel (n ∷ path ∷ x ∷ argv) b = refl

  pub cmd_cat_same :
      (fuel : ℕ) (argv : List Text) → cmd_cat S fuel argv ≡ Shell.Streams.cmd_cat S fuel argv
  unfolding cmd_cat Shell.Streams.cmd_cat
  cmd_cat_same fuel argv = λ i. call (S.malloc bufsiz) >>= λ b. cat_with_same fuel argv b i

  change_to_same : (a : Text) (mode : ℕ) → change_to S a mode ≡ chmod_to S a mode
  unfolding change_to chmod_to change_path is_valid_path Shell.Paths.is_valid_path
  change_to_same a mode = refl

  with_mode_same :
      (a mode_str : Text) (o : Option ℕ)
      → IsCString mode_str
      → with_mode S a mode_str o ≡ chmod_known S a mode_str o
  unfolding with_mode chmod_known
  with_mode_same a mode_str none z = refl
  with_mode_same a mode_str (some st_mode) z = λ i. call S.regcomp >>= λ compiled.
      (change_to_same a (chmod_format compiled mode_str st_mode)
          ∙ ap (chmod_to S a) (chmod_format_same compiled mode_str st_mode z))
        i

  -- argv[1] is a C string, as every word is.
  abbrev pub ModeIsCString : List Text → Type 0
  ModeIsCString (n ∷ mode_str ∷ argv) = IsCString mode_str
  ModeIsCString _ = Unit

  chmod_with_same :
      (argv : List Text) (b : Option Text)
      → ModeIsCString argv
      → chmod_with S argv b ≡ Shell.Chmod.chmod_with S argv b
  unfolding chmod_with Shell.Chmod.chmod_with
  chmod_with_same (n ∷ mode_str ∷ path ∷ []) (some b) z = λ i.
      convert_same S b path i >>= λ absolute.
      call (S.stat_mode absolute) >>= λ found. with_mode_same absolute mode_str found z i
  chmod_with_same [] (some b) z = refl
  chmod_with_same (n ∷ []) (some b) z = refl
  chmod_with_same (n ∷ old ∷ []) (some b) z = refl
  chmod_with_same (n ∷ old ∷ new ∷ x ∷ argv) (some b) z = refl
  chmod_with_same [] none z = refl
  chmod_with_same (n ∷ []) none z = refl
  chmod_with_same (n ∷ old ∷ []) none z = refl
  chmod_with_same (n ∷ old ∷ new ∷ []) none z = refl
  chmod_with_same (n ∷ old ∷ new ∷ x ∷ argv) none z = refl

  -- rename, cat and chmod do the same in both versions, chmod for a mode that is a C string.
  pub commands_same :
      (fuel : ℕ) (argv : List Text)
      → ModeIsCString argv
      → (cmd_rename S argv ≡ Shell.Commands.cmd_rename S argv)
        × (cmd_cat S fuel argv ≡ Shell.Streams.cmd_cat S fuel argv)
        × (cmd_chmod S argv ≡ Shell.Chmod.cmd_chmod S argv)
  unfolding cmd_chmod Shell.Chmod.cmd_chmod
  commands_same fuel argv z = (
    cmd_rename_same argv,
    cmd_cat_same fuel argv,
    λ i. call (S.malloc bufsiz) >>= λ b. chmod_with_same argv b z i,
  )
