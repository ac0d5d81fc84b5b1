-- ===== src/Version2/Confines/Commands.antt =====
-- With which paths the commands call what changes the file system.
use system_sw_gui_project.Prelude.{
  ◌≡◌, Bool, true, Option, none, some, List, [], ◌∷◌, Text, String, codes,
}
use system_sw_gui_project.Libc.Strings.{str_eq}
use system_sw_gui_project.Run.{Op}
use system_sw_gui_project.Run.Keeps.{Keeps, KeepsOp, Keeps-bind, Keeps-if, Keeps-call}
use system_sw_gui_project.Shell
use system_sw_gui_project.Shell.System.{System}
use system_sw_gui_project.Shell.Confines.{
  Confines, confines_rules, base_path-valid, fgetc-Keeps, fread-Keeps, and_left, and_right,
}
use system_sw_gui_project.Version2.Paths.{home, is_valid_path, convert, convert_into}
use system_sw_gui_project.Version2.Commands.{
  change_path, one_path, cmd_mkdir, cmd_rmdir, cmd_rm, change_pair, two_paths, cmd_rename, ln_usage,
  ln_with, cmd_ln, go_home, cd_to, cd_with, cd_block, cmd_cd,
}
use system_sw_gui_project.Version2.Equal.Paths.{convert_same, convert_into_same}
use system_sw_gui_project.Version2.Equal.Commands.{cmd_rename_same}

pub is_valid_path-valid : (p : Text) → is_valid_path p ≡ true → Shell.Paths.is_valid_path p ≡ true
unfolding is_valid_path Shell.Paths.is_valid_path
is_valid_path-valid p h = h

pub home-valid : Shell.Paths.is_valid_path home ≡ true
home-valid = base_path-valid

module _ (S : System) (P : S.State → Type 0) (c : Confines S P) where
  -- An operation that is confined to accepted paths.
  abbrev pub Confined : (Text → Op S.State Bool) → Type 0
  Confined op = (p : Text) → Shell.Paths.is_valid_path p ≡ true → KeepsOp P (op p)

  abbrev pub ConfinedPair : (Text → Text → Op S.State Bool) → Type 0
  ConfinedPair op =
      (p q : Text)
      → Shell.Paths.is_valid_path p ≡ true
      → Shell.Paths.is_valid_path q ≡ true
      → KeepsOp P (op p q)

  pub convert-Keeps : (b r : Text) → Keeps P (convert S b r)
  convert-Keeps b r = rw (convert_same S b r) (search confines_rules)

  pub convert_into-Keeps : (o : Option Text) (r : Text) → Keeps P (convert_into S o r)
  convert_into-Keeps o r = rw (convert_into_same S o r) (search confines_rules)

  pub change_path-Keeps :
      (op : Text → Op S.State Bool) (p : Text) → Confined op → Keeps P (change_path S op p)
  unfolding change_path
  change_path-Keeps op p k =
      Keeps-if _ _ _
        (λ v.
          Keeps-bind _ _ (Keeps-call (k p (is_valid_path-valid p v))) (λ b. search confines_rules))
        (search confines_rules)

  one_path-Keeps :
      (op : Text → Op S.State Bool) (usage : String) (argv : List Text) (b : Option Text)
      → Confined op
      → Keeps P (one_path S op usage argv b)
  unfolding one_path
  one_path-Keeps op usage (n ∷ p ∷ []) (some b) k =
      Keeps-bind _ _ (convert-Keeps b p) (λ a. change_path-Keeps op a k)
  one_path-Keeps op usage [] (some b) k = search confines_rules
  one_path-Keeps op usage (n ∷ []) (some b) k = search confines_rules
  one_path-Keeps op usage (n ∷ p ∷ x ∷ argv) (some b) k = search confines_rules
  one_path-Keeps op usage argv none k = search confines_rules

  pub cmd_mkdir-Keeps : (argv : List Text) → Keeps P (cmd_mkdir S argv)
  unfolding cmd_mkdir
  cmd_mkdir-Keeps argv =
      Keeps-bind _ _ (search confines_rules) (λ b. one_path-Keeps _ _ argv b (λ p v. c.mkdir p _ v))

  pub cmd_rmdir-Keeps : (argv : List Text) → Keeps P (cmd_rmdir S argv)
  unfolding cmd_rmdir
  cmd_rmdir-Keeps argv =
      Keeps-bind _ _ (search confines_rules) (λ b. one_path-Keeps _ _ argv b c.rmdir)

  pub cmd_rm-Keeps : (argv : List Text) → Keeps P (cmd_rm S argv)
  unfolding cmd_rm
  cmd_rm-Keeps argv =
      Keeps-bind _ _ (search confines_rules) (λ b. one_path-Keeps _ _ argv b c.unlink)

  pub change_pair-Keeps :
      (op : Text → Text → Op S.State Bool) (name : String) (p q : Text)
      → ConfinedPair op
      → Keeps P (change_pair S op name p q)
  unfolding change_pair
  change_pair-Keeps op name p q k =
      Keeps-if _ _ _
        (λ v. Shell.Confines.attempt-Keeps S P c (op p q) name (
          Keeps-call (
            k p q (is_valid_path-valid p (and_left _ _ v))
              (is_valid_path-valid q (and_right (is_valid_path p) _ v)))))
        (search confines_rules)

  two_paths-Keeps :
      (op : Text → Text → Op S.State Bool) (name : String) (b b' p q : Text)
      → ConfinedPair op
      → Keeps P (two_paths S op name b b' p q)
  unfolding two_paths
  two_paths-Keeps op name b b' p q k =
      Keeps-bind _ _ (convert-Keeps b p)
        (λ o. Keeps-bind _ _ (convert-Keeps b' q) (λ n. change_pair-Keeps op name o n k))

  pub cmd_rename-Keeps : (argv : List Text) → Keeps P (cmd_rename S argv)
  cmd_rename-Keeps argv =
      rw (cmd_rename_same S argv) (Shell.Confines.Names.cmd_rename-Keeps S P c argv)

  ln_usage-Keeps : Keeps P (ln_usage S)
  unfolding ln_usage
  ln_usage-Keeps = search confines_rules

  ln_with-Keeps : (argv : List Text) (b b' : Option Text) → Keeps P (ln_with S argv b b')
  unfolding ln_with
  ln_with-Keeps [] (some b) (some b') = ln_usage-Keeps
  ln_with-Keeps (n ∷ []) (some b) (some b') = ln_usage-Keeps
  ln_with-Keeps (n ∷ x₁ ∷ []) (some b) (some b') = ln_usage-Keeps
  ln_with-Keeps (n ∷ x₁ ∷ x₂ ∷ []) (some b) (some b') = two_paths-Keeps S.link _ b b' x₁ x₂ c.link
  ln_with-Keeps (n ∷ x₁ ∷ x₂ ∷ x₃ ∷ []) (some b) (some b') =
      Keeps-if (str_eq x₁ (codes "-s")) (two_paths S S.symlink "symlink" b b' x₂ x₃) _
        (λ _. two_paths-Keeps S.symlink "symlink" b b' x₂ x₃ c.symlink) ln_usage-Keeps
  ln_with-Keeps (n ∷ x₁ ∷ x₂ ∷ x₃ ∷ x₄ ∷ argv) (some b) (some b') = ln_usage-Keeps
  ln_with-Keeps [] (some b) none = search confines_rules
  ln_with-Keeps (n ∷ []) (some b) none = search confines_rules
  ln_with-Keeps (n ∷ x₁ ∷ []) (some b) none = search confines_rules
  ln_with-Keeps (n ∷ x₁ ∷ x₂ ∷ []) (some b) none = search confines_rules
  ln_with-Keeps (n ∷ x₁ ∷ x₂ ∷ x₃ ∷ []) (some b) none = search confines_rules
  ln_with-Keeps (n ∷ x₁ ∷ x₂ ∷ x₃ ∷ x₄ ∷ argv) (some b) none = search confines_rules
  ln_with-Keeps [] none b' = search confines_rules
  ln_with-Keeps (n ∷ []) none b' = search confines_rules
  ln_with-Keeps (n ∷ x₁ ∷ []) none b' = search confines_rules
  ln_with-Keeps (n ∷ x₁ ∷ x₂ ∷ []) none b' = search confines_rules
  ln_with-Keeps (n ∷ x₁ ∷ x₂ ∷ x₃ ∷ []) none b' = search confines_rules
  ln_with-Keeps (n ∷ x₁ ∷ x₂ ∷ x₃ ∷ x₄ ∷ argv) none b' = search confines_rules

  pub cmd_ln-Keeps : (argv : List Text) → Keeps P (cmd_ln S argv)
  unfolding cmd_ln
  cmd_ln-Keeps argv = search (confines_rules, ln_with-Keeps)

  pub go_home-Keeps : Keeps P (go_home S)
  unfolding go_home
  go_home-Keeps = Keeps-bind _ _ (Keeps-call (c.chdir home home-valid)) (λ b. search confines_rules)

  pub cd_to-Keeps : (a : Text) → Keeps P (cd_to S a)
  unfolding cd_to
  cd_to-Keeps a =
      Keeps-if _ _ _
        (λ v.
          Shell.Confines.attempt-Keeps S P c (S.chdir a) _
            (Keeps-call (c.chdir a (is_valid_path-valid a v))))
        (search confines_rules)

  cd_with-Keeps : (argv : List Text) (b : Option Text) → Keeps P (cd_with S argv b)
  unfolding cd_with
  cd_with-Keeps argv none = search confines_rules
  cd_with-Keeps [] (some b) = search confines_rules
  cd_with-Keeps (n ∷ []) (some b) = search confines_rules
  cd_with-Keeps (n ∷ p ∷ []) (some b) = Keeps-bind _ _ (convert-Keeps b p) cd_to-Keeps
  cd_with-Keeps (n ∷ p ∷ x ∷ argv) (some b) = search confines_rules

  cd_block-Keeps : (argv : List Text) → Keeps P (cd_block S argv)
  unfolding cd_block
  cd_block-Keeps argv = search (confines_rules, cd_with-Keeps)

  pub cmd_cd-Keeps : (argv : List Text) → Keeps P (cmd_cd S argv)
  unfolding cmd_cd
  cmd_cd-Keeps [] = cd_block-Keeps []
  cmd_cd-Keeps (n ∷ []) = go_home-Keeps
  cmd_cd-Keeps (n ∷ p ∷ []) = search (confines_rules, go_home-Keeps, cd_block-Keeps)
  cmd_cd-Keeps (n ∷ p ∷ x ∷ argv) = cd_block-Keeps (n ∷ p ∷ x ∷ argv)
