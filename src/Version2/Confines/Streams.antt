-- ===== src/Version2/Confines/Streams.antt =====
-- The commands on streams and modes.
use system_sw_gui_project.Prelude.{
  ℕ, zero, suc, ◌≡◌, true, Option, ◌==◌, none, some, List, [], ◌∷◌, Text,
}
use system_sw_gui_project.Run.{Run, crash, call, ◌>>◌, skip}
use system_sw_gui_project.Run.Keeps.{Keeps, Keeps-bind, Keeps-if}
use system_sw_gui_project.Shell
use system_sw_gui_project.Shell.System.{System, say}
use system_sw_gui_project.Shell.Confines.{
  Confines, confines_rules, fread-Keeps, fwrite-Keeps, fopen_write-Keeps, and_right,
}
use system_sw_gui_project.Version2.Paths.{is_valid_path}
use system_sw_gui_project.Version2.Streams.{
  copy_stream, copy_opened, copy_from, copy_file, cp_with, cmd_cp, cmd_cat,
}
use system_sw_gui_project.Version2.Chmod.{invalid, change_to, with_mode, chmod_with, cmd_chmod}
use system_sw_gui_project.Version2.Equal.Commands.{cmd_cat_same}
use system_sw_gui_project.Version2.Confines.Commands.{
  is_valid_path-valid, convert-Keeps, convert_into-Keeps, change_path-Keeps,
}

module _ (S : System) (P : S.State → Type 0) (c : Confines S P) where
  stream_step-Keeps :
      (tar : ℕ) (rest : Run S.State (Unit {0})) (chunk : Text)
      → Keeps P rest
      → Keeps P (elim chunk as (λ _. Run S.State (Unit {0})) [
        | [] ↦ skip
        | x ∷ t ↦ call (S.fwrite tar (x ∷ t)) >> rest
      ])
  stream_step-Keeps tar rest [] k = search confines_rules
  stream_step-Keeps tar rest (x ∷ t) k = Keeps-bind _ _ (fwrite-Keeps S P c tar (x ∷ t)) (λ _. k)

  copy_stream-Keeps : (fuel src tar : ℕ) → Keeps P (copy_stream S fuel src tar)
  unfolding copy_stream
  copy_stream-Keeps zero src tar = search confines_rules
  copy_stream-Keeps (suc fuel) src tar =
      Keeps-bind _ _ (fread-Keeps S P c src _)
        (λ chunk. stream_step-Keeps tar _ chunk (copy_stream-Keeps fuel src tar))

  null_step-Keeps :
      (src : ℕ) (chunk : Text)
      → Keeps P (elim chunk as (λ _. Run S.State (Unit {0})) [
        | [] ↦ call (S.fclose src) >> crash
        | x ∷ t ↦ crash
      ])
  null_step-Keeps src [] = search confines_rules
  null_step-Keeps src (x ∷ t) = search confines_rules

  copy_opened-Keeps : (fuel src : ℕ) (o : Option ℕ) → Keeps P (copy_opened S fuel src o)
  unfolding copy_opened
  copy_opened-Keeps fuel src none = Keeps-bind _ _ (fread-Keeps S P c src _) (null_step-Keeps src)
  copy_opened-Keeps fuel src (some tar) = search (confines_rules, copy_stream-Keeps)

  copy_from-Keeps :
      (fuel : ℕ) (target : Text) (o : Option ℕ)
      → Shell.Paths.is_valid_path target ≡ true
      → Keeps P (copy_from S fuel target o)
  unfolding copy_from
  copy_from-Keeps fuel target none v = search confines_rules
  copy_from-Keeps fuel target (some src) v =
      Keeps-bind _ _ (fopen_write-Keeps S P c target v) (copy_opened-Keeps fuel src)

  copy_file-Keeps :
      (fuel : ℕ) (source target : Text)
      → Shell.Paths.is_valid_path target ≡ true
      → Keeps P (copy_file S fuel source target)
  unfolding copy_file
  copy_file-Keeps fuel source target v =
      Keeps-bind _ _ (search confines_rules) (λ src. copy_from-Keeps fuel target src v)

  cp_with-Keeps :
      (fuel : ℕ) (argv : List Text) (b b' : Option Text) → Keeps P (cp_with S fuel argv b b')
  unfolding cp_with
  cp_with-Keeps fuel (n ∷ p ∷ q ∷ []) b b' = Keeps-bind _ _ (convert_into-Keeps S P c b p) (λ o.
      Keeps-bind _ _ (convert_into-Keeps S P c b' q) (λ t.
        Keeps-if _ _ _
          (λ v. copy_file-Keeps fuel o t (is_valid_path-valid t (and_right (is_valid_path o) _ v)))
          (search confines_rules)))
  cp_with-Keeps fuel [] b b' = search confines_rules
  cp_with-Keeps fuel (n ∷ []) b b' = search confines_rules
  cp_with-Keeps fuel (n ∷ p ∷ []) b b' = search confines_rules
  cp_with-Keeps fuel (n ∷ p ∷ q ∷ x ∷ argv) b b' = search confines_rules

  pub cmd_cp-Keeps : (fuel : ℕ) (argv : List Text) → Keeps P (cmd_cp S fuel argv)
  unfolding cmd_cp
  cmd_cp-Keeps fuel argv = search (confines_rules, cp_with-Keeps)

  pub cmd_cat-Keeps : (fuel : ℕ) (argv : List Text) → Keeps P (cmd_cat S fuel argv)
  cmd_cat-Keeps fuel argv =
      rw (cmd_cat_same S fuel argv) (Shell.Confines.Streams.cmd_cat-Keeps S P c fuel argv)

  change_to-Keeps : (a : Text) (mode : ℕ) → Keeps P (change_to S a mode)
  unfolding change_to
  change_to-Keeps a mode =
      Keeps-if (mode == invalid) (say S "Invalid mode format\n") _ (λ _. search confines_rules)
        (change_path-Keeps S P c _ a (λ p v. c.chmod p mode v))

  with_mode-Keeps : (a m : Text) (o : Option ℕ) → Keeps P (with_mode S a m o)
  unfolding with_mode
  with_mode-Keeps a m none = search confines_rules
  with_mode-Keeps a m (some st_mode) = search (confines_rules, change_to-Keeps)

  chmod_with-Keeps : (argv : List Text) (b : Option Text) → Keeps P (chmod_with S argv b)
  unfolding chmod_with
  chmod_with-Keeps argv none = search confines_rules
  chmod_with-Keeps [] (some b) = search confines_rules
  chmod_with-Keeps (n ∷ []) (some b) = search confines_rules
  chmod_with-Keeps (n ∷ m ∷ []) (some b) = search confines_rules
  chmod_with-Keeps (n ∷ m ∷ p ∷ []) (some b) =
      Keeps-bind _ _ (convert-Keeps S P c b p)
        (λ a. Keeps-bind _ _ (search confines_rules) (λ found. with_mode-Keeps a m found))
  chmod_with-Keeps (n ∷ m ∷ p ∷ x ∷ argv) (some b) = search confines_rules

  pub cmd_chmod-Keeps : (argv : List Text) → Keeps P (cmd_chmod S argv)
  unfolding cmd_chmod
  cmd_chmod-Keeps argv = search (confines_rules, chmod_with-Keeps)
