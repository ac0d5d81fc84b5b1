-- ===== src/Client/Outbox.antt =====
-- What the callbacks of the window send when their dialog is confirmed, where ftok, msgget and
-- msgsnd succeed.
use system_sw_gui_project.Prelude.{
  ◌≡◌, refl, true, false, none, some, List, [], ◌∷◌, ◌++◌, Text, codes,
}
use system_sw_gui_project.Libc.Strings.{str_eq, truncate}
use system_sw_gui_project.Libc.Numbers.{strtol_octal}
use system_sw_gui_project.Run.{pure, ◌>>=◌}
use system_sw_gui_project.Backend.Calls.{Message}
use system_sw_gui_project.Client.Session.{Desktop, UserData}
use system_sw_gui_project.Client.Send.{
  joined, request, favorite_request, send_message, send_favorite_message, start_backend_check,
}
use system_sw_gui_project.Client.Callbacks.{
  out_of_range, on_dialog_response, on_delete_response, on_new_directory_action,
  on_move_dialog_response, on_copy_dialog_response, on_chmod_dialog_response,
  on_add_to_favorites_action,
}

-- A window with the texts of the path entry, of the dialog's entry and of its "file_path", whose
-- state is what has been sent.
abbrev pub recorder : (Text → Text → Text) → Text → Text → Text → Desktop
recorder build path entry dialog = record {
  State = List Message;
  log = λ t s. (tt, s);
  close = λ s. (tt, s);
  path_text = λ s. (path, s);
  entry_text = λ s. (entry, s);
  dialog_path = λ s. (dialog, s);
  ftok = λ p s. (some 1, s);
  msgget = λ k s. (some 1, s);
  msgsnd = λ q m s. (true, s ++ m ∷ []);
  msgrcv = λ q t s. (none, s);
  remove_queue = λ q s. (tt, s);
  usleep = λ n s. (tt, s);
  timeout_add = λ n t s. (tt, s);
  is_dir = λ p s. (true, s);
  set_directory = λ p s. (true, s);
  build_filename = build;
}

abbrev pub selected : Text → UserData
selected name = record {
  selected_file_info = some name;
  is_backend_done = false;
  is_check_running = false;
}

-- What is asked for: a file of the directory in the path entry, with the dialog's text, or the path
-- of the dialog and a mode.
pub data Asked : Type 0 where
  deleting adding_favorite : Text → Text → Asked
  new_directory : Text → Asked
  renaming moving copying : Text → Text → Text → Asked
  changing_mode : Text → Text → Asked

module _ (build : Text → Text → Text) where
  -- What the callback has sent.
  unfoldable pub sent : Asked → List Message
  sent (deleting path name) =
      (on_delete_response (recorder build path [] []) true (selected name, [])).1.1
  sent (adding_favorite path name) =
      (on_add_to_favorites_action (recorder build path [] []) (selected name, [])).1.1
  sent (new_directory path) =
      (on_new_directory_action (recorder build path [] []) (selected [], [])).1.1
  sent (renaming path name new) =
      (on_dialog_response (recorder build path new []) true (selected name, [])).1.1
  sent (moving path name dest) =
      (on_move_dialog_response (recorder build path dest []) true (selected name, [])).1.1
  sent (copying path name dest) =
      (on_copy_dialog_response (recorder build path dest []) true (selected name, [])).1.1
  sent (changing_mode file mode) =
      (on_chmod_dialog_response (recorder build [] mode file) true (selected [], [])).1.1

  -- The texts that the dialog takes.
  abbrev pub Confirmed : Asked → Type 0
  Confirmed (renaming path name new) = (str_eq new [] ≡ false) × (str_eq path [] ≡ false)
  Confirmed (moving path name dest) = str_eq dest [] ≡ false
  Confirmed (copying path name dest) = str_eq dest [] ≡ false
  Confirmed (changing_mode file mode) =
      (str_eq (strtol_octal mode).rest [] ≡ true) × (out_of_range (strtol_octal mode) ≡ false)
  Confirmed _ = Unit

  unfoldable pub encode : Asked → Message
  encode (deleting path name) = request 2 (build path name)
  encode (adding_favorite path name) =
      favorite_request (build path name) (build (codes "/tmp/link") name)
  encode (new_directory path) = request 3 (build path (codes "New Folder"))
  encode (renaming path name new) = request 4 (joined (build path name) (build path new))
  encode (moving path name dest) = request 5 (joined (build path name) (build dest name))
  encode (copying path name dest) = request 6 (joined (build path name) (build dest name))
  encode (changing_mode file mode) = request 7 (joined file mode)

  pub sent-encode : (x : Asked) → Confirmed x → sent x ≡ encode x ∷ []
  unfolding sent encode on_delete_response on_add_to_favorites_action on_new_directory_action
      on_dialog_response on_move_dialog_response on_copy_dialog_response on_chmod_dialog_response
      start_backend_check send_message send_favorite_message ◌>>=◌ pure str_eq truncate strtol_octal
  sent-encode (deleting path name) h = refl
  sent-encode (adding_favorite path name) h = refl
  sent-encode (new_directory path) h = refl
  sent-encode (renaming path name new) (a, b) = rw (a, b) refl
  sent-encode (moving path name dest) h = rw h refl
  sent-encode (copying path name dest) h = rw h refl
  sent-encode (changing_mode file mode) (a, b) = rw (a, b) refl
