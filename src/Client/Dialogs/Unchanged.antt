-- ===== src/Client/Dialogs/Unchanged.antt =====
-- A mode that is confirmed as on_chmod_action shows it, through both callbacks and the backend.
use system_sw_gui_project.Prelude.{
  ℕ, ◌≤◌, ◌≡◌, refl, ap, ◌∙◌, true, false, none, some, List, [], ◌∷◌, ◌++◌, Text, length, arith,
}
use system_sw_gui_project.Libc.Strings.{str_eq, truncate}
use system_sw_gui_project.Libc.Numbers.{strtol_octal}
use system_sw_gui_project.Run.{call, pure, ◌>>=◌}
use system_sw_gui_project.Backend.Calls.{Calls, Message}
use system_sw_gui_project.Backend.Requests.{handle, answer_changed}
use system_sw_gui_project.Client.Session.{Desktop, UserData}
use system_sw_gui_project.Client.Widgets.{Widgets}
use system_sw_gui_project.Client.Send.{joined, request, send_message, start_backend_check}
use system_sw_gui_project.Client.Outbox.{selected}
use system_sw_gui_project.Client.Callbacks.{out_of_range, on_chmod_dialog_response}
use system_sw_gui_project.Client.Requests.{IsPart, handle-request}
use system_sw_gui_project.Client.Dialogs.{permission_bits, mode_text, on_chmod_action}
use system_sw_gui_project.Client.Dialogs.Modes.{
  read, mode_text-lt, permission_bits-lt, in_range, mode_text-IsPart, change_read,
}

-- A dialog with the text of its entry and its "file_path", and what has been sent.
pub record Dialog : Type 0 where
  pub entry : Text
  pub file_path : Text
  pub sent : List Message

abbrev pub blank : Dialog
blank = record { entry = []; file_path = []; sent = [] }

-- A window that shows the directory `path`, where ftok, msgget and msgsnd succeed.
abbrev pub window : (Text → Text → Text) → Text → Desktop
window build path = record {
  State = Dialog;
  log = λ t s. (tt, s);
  close = λ s. (tt, s);
  path_text = λ s. (path, s);
  entry_text = λ s. (s.entry, s);
  dialog_path = λ s. (s.file_path, s);
  ftok = λ p s. (some 1, s);
  msgget = λ k s. (some 1, s);
  msgsnd = λ q m s. (true, record s { sent = s.sent ++ m ∷ [] });
  msgrcv = λ q t s. (none, s);
  remove_queue = λ q s. (tt, s);
  usleep = λ n s. (tt, s);
  timeout_add = λ n t s. (tt, s);
  is_dir = λ p s. (true, s);
  set_directory = λ p s. (true, s);
  build_filename = build;
}

-- Its widgets, where every file has the mode `st_mode`.
abbrev pub widgets : (build : Text → Text → Text) (path : Text) → ℕ → Widgets (window build path)
widgets build path st_mode = record {
  new_dialog = λ t s. (tt, s);
  new_label = λ t s. (tt, s);
  new_entry = λ t s. (tt, record s { entry = t });
  show = λ s. (tt, s);
  keep_path = λ p s. (tt, record s { file_path = p });
  stat_mode = λ p s. (some st_mode, s);
  popup = λ items x y s. (tt, s);
  first_child = λ s. (none, s);
  list_remove = λ row s. (tt, s);
  dir_open = λ p s. (none, s);
  dir_close = λ s. (tt, s);
  readlink = λ p n s. (none, s);
  append_row = λ name t s. (tt, s);
  path_get_dirname = λ p. p;
  set_path_text = λ p s. (tt, s);
}

module _ (build : Text → Text → Text) (path name : Text) (st_mode : ℕ) where
  -- The window after on_chmod_action.
  abbrev pub asked : UserData × Dialog
  asked =
      (on_chmod_action (window build path) (widgets build path st_mode) (selected name, blank)).1

  -- What is sent when the dialog is then confirmed.
  abbrev pub confirmed : List Message
  confirmed = (on_chmod_dialog_response (window build path) true asked).1.1.sent

  sent_confirmed :
      (u : UserData) (t file : Text)
      → u.is_check_running ≡ false
      → str_eq (strtol_octal t).rest [] ≡ true
      → out_of_range (strtol_octal t) ≡ false
      → (on_chmod_dialog_response
          (window build path)
          true
          (u, record { entry = t; file_path = file; sent = [] })).1.1.sent
        ≡ request 7 (joined file t) ∷ []
  unfolding on_chmod_dialog_response send_message start_backend_check ◌>>=◌ pure request truncate
      strtol_octal str_eq joined
  sent_confirmed u t file r a b = rw (a, b, r) refl

  confirmed-request :
      str_eq (strtol_octal (mode_text (permission_bits st_mode))).rest [] ≡ true
      → out_of_range (strtol_octal (mode_text (permission_bits st_mode))) ≡ false
      → confirmed ≡ request 7 (joined (build path name) (mode_text (permission_bits st_mode))) ∷ []
  unfolding on_chmod_action ◌>>=◌ pure mode_text permission_bits
  confirmed-request a b =
      sent_confirmed (selected name) (mode_text (permission_bits st_mode)) (build path name) refl a
        b

module _ (K : Calls) (depth fuel queue : ℕ) where
  -- If the text that the dialog of on_chmod_action starts with is confirmed as it is, one request
  -- is sent, on which the backend sets the mode of the file to its nine permission bits; setuid,
  -- setgid and the sticky bit are cleared. stat, ftok, msgget and msgsnd succeed for the window; the
  -- file's path is not empty, has no dollar sign in it and has at most 251 bytes.
  pub unchanged_mode :
      (build : Text → Text → Text) (path name : Text) (st_mode : ℕ)
      → IsPart (build path name)
      → length (build path name) ≤ 251
      → (buf : Message) × (confirmed build path name st_mode ≡ buf ∷ [])
        × (handle K depth fuel queue buf ≡ (
            call (K.chmod (build path name) (permission_bits st_mode))
            >>= answer_changed K depth fuel queue))
  unfolding str_eq
  unchanged_mode build path name st_mode p l =
      let m = permission_bits st_mode in
      let small = permission_bits-lt st_mode in
      let shown = mode_text-lt m small in
      let (part, three) = mode_text-IsPart m small in
      let (_, _, changed, _) =
        handle-request K depth fuel queue (build path name) (mode_text m) p part
          (omega (arith, l, three)) in
      (
        request 7 (joined (build path name) (mode_text m)),
        confirmed-request build path name st_mode
            (ap (λ r. str_eq r.rest []) shown ∙ nothing_left m)
            (ap out_of_range shown ∙ in_range m small),
        changed ∙ change_read K depth fuel queue (build path name) (mode_text m) m small shown,
      )
    where
      nothing_left : (m : ℕ) → str_eq (read m).rest [] ≡ true
      nothing_left m = refl
