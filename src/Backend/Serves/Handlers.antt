-- ===== src/Backend/Serves/Handlers.antt =====
-- The handlers of backend.c leave the queue of requests alone.
use system_sw_gui_project.Prelude.{
  ℕ, zero, suc, ◌≡◌, String, Bool, true, false, List, [], ◌∷◌, ◌==◌, Text, All,
}
use system_sw_gui_project.Libc.Strings.{str_eq}
use system_sw_gui_project.Libc.Numbers.{strtol_octal}
use system_sw_gui_project.Run.{Run, ◌>>◌}
use system_sw_gui_project.Run.Keeps.{
  Keeps, Keeps-pure, Keeps-exit, Keeps-call, Keeps-if, Keeps-bind,
}
use system_sw_gui_project.Backend.Calls.{
  Calls, Made, made, eexist, failed, Message, note, send_response,
}
use system_sw_gui_project.Backend.Files.{rename_file_or_directory}
use system_sw_gui_project.Backend.Allows.Files.{
  move_directory-Keeps, copy_file-Keeps, remove_file_or_directory-Keeps, rename_tokens-Keeps,
}
use system_sw_gui_project.Backend.Requests.{
  succeed, fail, answer, answer_success, handle_delete, mkdir_loop, handle_mkdir, handle_rename,
  answer_moved, move, copy, answer_changed, change_mode, linked, link_again, is_directory,
  is_missing, favorite, with_tokens, handle,
}
use system_sw_gui_project.Backend.Serves.{Serial}

module _ (K : Calls) (depth fuel r msgid : ℕ) (queued : K.State → List Message)
    (k : Serial K msgid queued) (q : List Message) where
  abbrev Kept : {A : Type 0} → Run K.State A → Type 0
  Kept m = Keeps (λ s. queued s ≡ q) m

  pub note-Kept : (t : String) → Kept (note K t)
  unfolding note
  note-Kept t = Keeps-call ((k.others q).log t)

  send_response-Kept : (t : ℕ) (text : Text) → Kept (send_response K r t text)
  unfolding send_response
  send_response-Kept t text = Keeps-bind _ _ (Keeps-call (k.msgsnd q r _)) (λ sent. note-Kept _)

  succeed-Kept : (good : String) → Kept (note K good >> succeed K depth fuel r)
  unfolding succeed
  succeed-Kept good = Keeps-bind _ _ (note-Kept good) (λ _. send_response-Kept _ _)

  fail-Kept : (bad : String) → Kept (note K bad >> fail K depth fuel r)
  unfolding fail
  fail-Kept bad = Keeps-bind _ _ (note-Kept bad) (λ _. send_response-Kept _ _)

  answer-Kept : (good bad : String) (b : Bool) → Kept (answer K depth fuel r good bad b)
  unfolding answer
  answer-Kept good bad true = succeed-Kept good
  answer-Kept good bad false = fail-Kept bad

  answer_success-Kept :
      (good bad : String) (b : Bool) → Kept (answer_success K depth fuel r good bad b)
  unfolding answer_success
  answer_success-Kept good bad true = succeed-Kept good
  answer_success-Kept good bad false = note-Kept bad

  handle_delete-Kept : (p : Text) → Kept (handle_delete K depth fuel r p)
  unfolding handle_delete
  handle_delete-Kept p =
      Keeps-bind _ _ (remove_file_or_directory-Keeps K _ _ (k.others q) p tt)
        (answer_success-Kept _ _)

  All-tt : (ts : List Text) → All (λ _. Unit {0}) ts
  All-tt [] = tt
  All-tt (t ∷ ts) = (tt, All-tt ts)

  handle_rename-Kept : (t : Text) → Kept (handle_rename K depth fuel r t)
  unfolding handle_rename rename_file_or_directory
  handle_rename-Kept t =
      Keeps-bind _ _ (rename_tokens-Keeps K _ _ (k.others q) _ (All-tt _)) (answer_success-Kept _ _)

  either_lem :
      (result : Made) (m n l : Run K.State (Unit {0}))
      → Kept m
      → Kept n
      → Kept l
      → Kept (elim result as (λ _. Run K.State (Unit {0})) [ made ↦ m | eexist ↦ n | failed ↦ l ])
  either_lem made m n l i j o = i
  either_lem eexist m n l i j o = j
  either_lem failed m n l i j o = o

  mkdir_loop-Kept :
      (rounds count digit : ℕ) (p : Text) → Kept (mkdir_loop K depth fuel r rounds count digit p)
  unfolding mkdir_loop succeed
  mkdir_loop-Kept zero count digit p = Keeps-pure tt
  mkdir_loop-Kept (suc rounds) count digit p =
      Keeps-bind _ _ (Keeps-call ((k.others q).mkdir _ _ tt)) (λ result.
        either_lem result _ _ _ (send_response-Kept _ _) (mkdir_loop-Kept rounds _ _ p)
          (note-Kept _))

  handle_mkdir-Kept : (p : Text) → Kept (handle_mkdir K depth fuel r p)
  unfolding handle_mkdir
  handle_mkdir-Kept p = Keeps-bind _ _ (Keeps-call (k.malloc q _)) (λ allocated.
      Keeps-if allocated _ _ (λ _. Keeps-bind _ _ (mkdir_loop-Kept 11 0 0 p) (λ _. note-Kept _))
        (Keeps-bind _ _ (note-Kept _) (λ _. Keeps-exit 1)))

  move-Kept : (p t : Text) → Kept (move K depth fuel r p t)
  unfolding move answer_moved answer
  move-Kept p t = Keeps-bind _ _ (Keeps-call ((k.others q).stat _)) (λ found.
      Keeps-if (is_directory K depth fuel r found) _ _
        (λ _. Keeps-bind _ _ (Keeps-call ((k.others q).rename p t tt tt)) (λ renamed.
          Keeps-if renamed _ _ (λ _. succeed-Kept _)
            (Keeps-bind _ _ (move_directory-Keeps K _ _ (k.others q) depth fuel p t tt tt)
              (answer-Kept _ _))))
        (fail-Kept _))

  copy-Kept : (p t : Text) → Kept (copy K depth fuel r p t)
  unfolding copy answer
  copy-Kept p t = Keeps-bind _ _ (Keeps-call ((k.others q).stat _)) (λ found.
      Keeps-if (is_directory K depth fuel r found) _ _
        (λ _.
          Keeps-bind _ _ (copy_file-Keeps K _ _ (k.others q) depth fuel p t tt) (answer-Kept _ _))
        (fail-Kept _))

  change_mode-Kept : (p m : Text) → Kept (change_mode K depth fuel r p m)
  unfolding change_mode answer_changed answer
  change_mode-Kept p m =
      Keeps-if (str_eq (strtol_octal m).rest []) _ _
        (λ _. Keeps-bind _ _ (Keeps-call ((k.others q).chmod p _ tt)) (answer-Kept _ _))
        (fail-Kept _)

  linked-Kept : (m : Made) → Kept (linked K depth fuel r m)
  unfolding linked answer
  linked-Kept made = succeed-Kept _
  linked-Kept eexist = fail-Kept _
  linked-Kept failed = fail-Kept _

  link_again-Kept : (p t : Text) (m : Made) → Kept (link_again K depth fuel r p t m)
  unfolding link_again answer
  link_again-Kept p t made = succeed-Kept _
  link_again-Kept p t failed = fail-Kept _
  link_again-Kept p t eexist =
      Keeps-bind _ _ (Keeps-call ((k.others q).unlink t tt))
        (λ _. Keeps-bind _ _ (Keeps-call (k.symlink q p t)) linked-Kept)

  favorite-Kept : (p t : Text) → Kept (favorite K depth fuel r p t)
  unfolding favorite
  favorite-Kept p t = Keeps-bind _ _ (Keeps-call ((k.others q).stat _)) (λ found.
      Keeps-bind _ _
        (Keeps-if (is_missing K depth fuel r found) _ _
          (λ _. Keeps-bind _ _ (Keeps-call ((k.others q).mkdir _ _ tt)) (λ _. Keeps-pure tt))
          (Keeps-pure tt))
        (λ _. Keeps-bind _ _ (Keeps-call (k.symlink q p t)) (link_again-Kept p t)))

  with_tokens-Kept :
      (f : Text → Text → Run K.State (Unit {0})) (ts : List Text)
      → ((p t : Text) → Kept (f p t))
      → Kept (with_tokens K depth fuel r f ts)
  unfolding with_tokens
  with_tokens-Kept f [] h = Keeps-pure tt
  with_tokens-Kept f (p ∷ []) h = Keeps-pure tt
  with_tokens-Kept f (p ∷ t ∷ ts) h = h p t

  pub handle-Kept : (buf : Message) → Kept (handle K depth fuel r buf)
  unfolding handle
  handle-Kept buf =
      Keeps-if (buf.mtype == 2) _ _ (λ _. handle_delete-Kept _)
        (Keeps-if (buf.mtype == 3) _ _ (λ _. handle_mkdir-Kept _)
          (Keeps-if (buf.mtype == 4) _ _ (λ _. handle_rename-Kept _)
            (Keeps-if (buf.mtype == 5) _ _ (λ _. with_tokens-Kept _ _ move-Kept)
              (Keeps-if (buf.mtype == 6) _ _ (λ _. with_tokens-Kept _ _ copy-Kept)
                (Keeps-if (buf.mtype == 7) _ _ (λ _. with_tokens-Kept _ _ change_mode-Kept)
                  (Keeps-if (buf.mtype == 8) _ _ (λ _. with_tokens-Kept _ _ favorite-Kept)
                    (Keeps-pure tt)))))))
