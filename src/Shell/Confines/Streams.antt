-- ===== src/Shell/Confines/Streams.antt =====
-- cat, cp and chmod stay in the sandbox.
use system_sw_gui_project.Prelude.{
  ℕ, zero, suc, ◌≡◌, Bool, true, false, ◌&&◌, Option, none, some, List, [], ◌∷◌, Text,
}
use system_sw_gui_project.Run.{Run, call, skip, ◌>>◌}
use system_sw_gui_project.Run.Keeps.{Keeps, Keeps-bind}
use system_sw_gui_project.Shell.Paths.{is_valid_path}
use system_sw_gui_project.Shell.Paths.Bounds.{bufsiz}
use system_sw_gui_project.Shell.System.{System, print, bytes}
use system_sw_gui_project.Shell.Streams.{
  is_eof, byte_of, cat_loop, cat_file, cat_with, cmd_cat, copy_loop, copy_opened, copy_from,
  copy_file, cp_with, cmd_cp,
}
use system_sw_gui_project.Shell.Chmod.{chmod_to, chmod_known, chmod_with, cmd_chmod}
use system_sw_gui_project.Shell.Confines.{
  Confines, confines_rules, and_right, fgetc-Keeps, fread-Keeps,
}

module _ (S : System) (P : S.State → Type 0) (c : Confines S P) where
  cat_step-Keeps :
      (ch : Option ℕ) (next : Run S.State (Unit {0})) (b : Bool)
      → Keeps P next
      → Keeps P (elim b as (λ _. Run S.State (Unit {0})) [
        | true ↦ skip
        | false ↦ print S (bytes (byte_of S ch)) >> next
      ])
  cat_step-Keeps ch next true k = search confines_rules
  cat_step-Keeps ch next false k = search confines_rules

  cat_loop-Keeps : (fuel file : ℕ) → Keeps P (cat_loop S fuel file)
  unfolding cat_loop
  cat_loop-Keeps zero file = search confines_rules
  cat_loop-Keeps (suc fuel) file =
      Keeps-bind _ _ (fgetc-Keeps S P c file)
        (λ ch. cat_step-Keeps ch (cat_loop S fuel file) (is_eof S ch) (cat_loop-Keeps fuel file))

  cat_file-Keeps : (fuel : ℕ) (o : Option ℕ) → Keeps P (cat_file S fuel o)
  unfolding cat_file
  cat_file-Keeps fuel none = search confines_rules
  cat_file-Keeps fuel (some file) = search (confines_rules, cat_loop-Keeps)

  cat_with-Keeps :
      (fuel : ℕ) (argv : List Text) (o : Option Text) → Keeps P (cat_with S fuel argv o)
  unfolding cat_with
  cat_with-Keeps fuel (n ∷ path ∷ []) o = search (confines_rules, cat_file-Keeps)
  cat_with-Keeps fuel argv o = search confines_rules

  pub cmd_cat-Keeps : (fuel : ℕ) (argv : List Text) → Keeps P (cmd_cat S fuel argv)
  unfolding cmd_cat
  cmd_cat-Keeps fuel argv = search (confines_rules, cat_with-Keeps)

  copy_step-Keeps :
      (tar : ℕ) (next : Run S.State (Unit {0})) (chunk : Text)
      → Keeps P next
      → Keeps P (elim chunk as (λ _. Run S.State (Unit {0})) [
        | [] ↦ skip
        | x ∷ rest ↦ call (S.fwrite tar (x ∷ rest)) >> next
      ])
  copy_step-Keeps tar next [] k = search confines_rules
  copy_step-Keeps tar next (x ∷ rest) k = search confines_rules

  copy_loop-Keeps : (fuel src tar : ℕ) → Keeps P (copy_loop S fuel src tar)
  unfolding copy_loop
  copy_loop-Keeps zero src tar = search confines_rules
  copy_loop-Keeps (suc fuel) src tar =
      Keeps-bind _ _ (fread-Keeps S P c src bufsiz) (λ chunk.
        copy_step-Keeps tar (copy_loop S fuel src tar) chunk (copy_loop-Keeps fuel src tar))

  copy_opened-Keeps : (fuel src : ℕ) (o : Option ℕ) → Keeps P (copy_opened S fuel src o)
  unfolding copy_opened
  copy_opened-Keeps fuel src none = search confines_rules
  copy_opened-Keeps fuel src (some tar) = search (confines_rules, copy_loop-Keeps)

  copy_from-Keeps :
      (fuel : ℕ) (target : Text) (o : Option ℕ)
      → is_valid_path target ≡ true
      → Keeps P (copy_from S fuel target o)
  unfolding copy_from
  copy_from-Keeps fuel target none v = search confines_rules
  copy_from-Keeps fuel target (some src) v = search (confines_rules, copy_opened-Keeps)

  copy_file-Keeps :
      (fuel : ℕ) (source target : Text)
      → is_valid_path source && is_valid_path target ≡ true
      → Keeps P (copy_file S fuel source target)
  unfolding copy_file
  copy_file-Keeps fuel source target v =
      let w = and_right (is_valid_path source) _ v in search (confines_rules, copy_from-Keeps)

  cp_with-Keeps :
      (fuel : ℕ) (argv : List Text) (o o' : Option Text) → Keeps P (cp_with S fuel argv o o')
  unfolding cp_with
  cp_with-Keeps fuel (n ∷ origin ∷ new ∷ []) o o' = search (confines_rules, copy_file-Keeps)
  cp_with-Keeps fuel argv o o' = search confines_rules

  pub cmd_cp-Keeps : (fuel : ℕ) (argv : List Text) → Keeps P (cmd_cp S fuel argv)
  unfolding cmd_cp
  cmd_cp-Keeps fuel argv = search (confines_rules, cp_with-Keeps)

  chmod_to-Keeps : (p : Text) (mode : ℕ) → Keeps P (chmod_to S p mode)
  unfolding chmod_to
  chmod_to-Keeps p mode = search confines_rules depth 8

  chmod_known-Keeps : (p mode_str : Text) (o : Option ℕ) → Keeps P (chmod_known S p mode_str o)
  unfolding chmod_known
  chmod_known-Keeps p mode_str none = search confines_rules
  chmod_known-Keeps p mode_str (some st_mode) = search (confines_rules, chmod_to-Keeps)

  chmod_with-Keeps : (argv : List Text) (o : Option Text) → Keeps P (chmod_with S argv o)
  unfolding chmod_with
  chmod_with-Keeps argv none = search confines_rules
  chmod_with-Keeps (n ∷ mode_str ∷ path ∷ []) (some b) = search (confines_rules, chmod_known-Keeps)
  chmod_with-Keeps argv (some b) = search confines_rules

  pub cmd_chmod-Keeps : (argv : List Text) → Keeps P (cmd_chmod S argv)
  unfolding cmd_chmod
  cmd_chmod-Keeps argv = search (confines_rules, chmod_with-Keeps)
