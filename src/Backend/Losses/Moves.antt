-- ===== src/Backend/Losses/Moves.antt =====
-- Moving a regular file in backend.c does not lose it, however calls fail.
use system_sw_gui_project.Prelude.{
  ℕ, zero, suc, ◌≡◌, inl, inr, refl, ◌∙◌, Bool, true, false, Option, none, some, if◌then◌else◌,
  Text,
}
use system_sw_gui_project.Run.{
  Outcome, done, exited, crashed, out_of_fuel, Run, continue, pure, starve, call, ◌>>=◌,
}
use system_sw_gui_project.Backend.Calls.{Calls, Kind, regular, directory, other}
use system_sw_gui_project.Backend.Files.{move_file, move_kind, move_directory}
use system_sw_gui_project.Backend.Losses.{Contents, Here, There, Copied, Moved}
use system_sw_gui_project.Backend.Losses.Copies.{copy_content-Copied}

module _ (K : Calls) (c : Contents K) (src dst t : Text) (apart : c.apart dst src ≡ true)
    (swapped : c.apart src dst ≡ true) where
  abbrev AtSource : K.State → Type 0
  AtSource = Here K c src dst t

  abbrev AtTarget : K.State → Type 0
  AtTarget = There K c src dst t

  Moved-there : (b : Bool) (s : K.State) → AtTarget s → Moved K c src dst t (done b, s)
  Moved-there true s h = h
  Moved-there false s h = inr h

  unlinked_there : (s : K.State) → AtTarget s → AtTarget (K.unlink src s).1
  unlinked_there s (inl there) = inl (c.unlinked_pending src dst s swapped ∙ there)
  unlinked_there s (inr bad) = inr (c.unlinked_failed src s bad)

  -- The source is removed only if the copy is whole.
  unlink_after :
      (r : Outcome Bool) (s : K.State)
      → Copied K c src dst t (r, s)
      → Moved K c src dst t
          (continue r (λ copied. if copied then call (K.unlink src) else pure false) s)
  unfolding call pure
  unlink_after (done true) s (here, there) =
      Moved-there (K.unlink src s).0 (K.unlink src s).1 (unlinked_there s there)
  unlink_after (done false) s h = inl h
  unlink_after (exited n) s h = inl h
  unlink_after crashed s h = inl h
  unlink_after out_of_fuel s h = inl h

  renamed_or :
      (b : Bool) (s : K.State) (otherwise : Run K.State Bool)
      → (K.rename src dst s).0 ≡ b
      → AtSource s
      → (AtSource (K.rename src dst s).1 → Moved K c src dst t (otherwise (K.rename src dst s).1))
      → Moved K c src dst t ((if b then pure true else otherwise) (K.rename src dst s).1)
  unfolding pure
  renamed_or true s otherwise e h k = inl (c.renamed src dst t s e h)
  renamed_or false s otherwise e h k = k (c.not_renamed src dst src s e ∙ h)

  move_file-Moved :
      (fuel : ℕ) (s : K.State) → AtSource s → Moved K c src dst t (move_file K fuel src dst s)
  unfolding move_file ◌>>=◌ call
  move_file-Moved fuel s h = renamed_or (K.rename src dst s).0 s _ refl h (λ here.
      unlink_after _ _ (copy_content-Copied K c src dst t apart fuel (K.rename src dst s).1 here))

  move_kind-Moved :
      (go : Text → Text → Run K.State Bool) (fuel : ℕ) (found : Option (Kind × ℕ)) (s : K.State)
      → (K.stat src s).0 ≡ found
      → AtSource s
      → Moved K c src dst t (move_kind K go fuel src dst found (K.stat src s).1)
  unfolding move_kind pure
  move_kind-Moved go fuel none s e h = inl (c.stat_settled src src s ∙ h)
  move_kind-Moved go fuel (some (directory, mode)) s e h =
      let nothing = c.stat_directory src s mode e in absurd (cc)
  move_kind-Moved go fuel (some (regular, mode)) s e h =
      move_file-Moved fuel (K.stat src s).1 (c.stat_settled src src s ∙ h)
  move_kind-Moved go fuel (some (other, mode)) s e h =
      move_file-Moved fuel (K.stat src s).1 (c.stat_settled src src s ∙ h)

  -- From a regular file at `src` that no stream writes to, where `src` and `dst` lead to two files:
  -- if move_directory returns with success, the content is at `dst`, and if it ends otherwise,
  -- whatever calls fail and within every fuel, the content is at `src` or at `dst`; in both cases
  -- unless reading the file or storing buffered bytes has failed, which the code does not notice.
  pub move_directory-Moved :
      (depth fuel : ℕ) (s : K.State)
      → AtSource s
      → Moved K c src dst t (move_directory K depth fuel src dst s)
  unfolding move_directory ◌>>=◌ call starve
  move_directory-Moved zero fuel s h = inl h
  move_directory-Moved (suc depth) fuel s h =
      move_kind-Moved (move_directory K depth fuel) fuel (K.stat src s).0 s refl h
