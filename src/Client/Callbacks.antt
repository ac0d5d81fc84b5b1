-- ===== src/Client/Callbacks.antt =====
-- The callbacks of ui_manage.c, ui_cd.c and ui_link.c that send requests. `ok` says whether the
-- dialog was confirmed. g_free on a text that send_message has freed ends the program.
use system_sw_gui_project.Prelude.{
  ℕ, String, Bool, true, false, not, ◌||◌, Option, none, some, Text, codes, [], ◌==◌, ltb,
  if◌then◌else◌,
}
use system_sw_gui_project.Libc.Strings.{str_eq}
use system_sw_gui_project.Libc.Numbers.{Strtol, strtol_octal}
use system_sw_gui_project.Run.{Run, crash, ◌>>=◌, ◌>>◌, skip}
use system_sw_gui_project.Client.Session.{Desktop, Session, outside, data_now, say, not_done}
use system_sw_gui_project.Client.Send.{
  joined, send_message, send_favorite_message, start_backend_check,
}

-- mode < 0 || mode > 0777, of the long that strtol returns.
abbrev pub out_of_range : Strtol → Bool
out_of_range r = if r.negative then not (r.magnitude == 0) else ltb 0o777 r.magnitude

module _ (D : Desktop) where
  -- g_free(message) behind send_message.
  unfoldable pub free_message : Bool → Run (Session D) (Unit {0})
  free_message true = skip
  free_message false = crash

  unfoldable pub request_and_free : ℕ → Text → Run (Session D) (Unit {0})
  unfolding free_message
  request_and_free buf_type message = do
    not_done D
    kept ← send_message D buf_type message
    free_message kept

  unfoldable pub check_and_close : Run (Session D) (Unit {0})
  check_and_close = do start_backend_check D; outside D D.close

  unfoldable pub close_and_check : Run (Session D) (Unit {0})
  close_and_check = do outside D D.close; start_backend_check D

  unfoldable pub give_up : String → Run (Session D) (Unit {0})
  give_up text = do say D text; outside D D.close

  unfoldable pub rename_confirmed : Text → Run (Session D) (Unit {0})
  unfolding request_and_free check_and_close give_up
  rename_confirmed file_name = do
    new_name ← outside D D.entry_text
    current_path ← outside D D.path_text
    if str_eq new_name []
        then give_up "New name is empty.\n"
        else if str_eq current_path []
        then give_up "Current path is empty.\n"
        else (do
          say D "message : %s\n"
          request_and_free 4 (
              joined (D.build_filename current_path file_name)
                (D.build_filename current_path new_name))
          check_and_close)

  unfoldable pub rename_response : Bool → Option Text → Run (Session D) (Unit {0})
  unfolding rename_confirmed
  rename_response true (some file_name) = rename_confirmed file_name
  rename_response _ _ = check_and_close

  unfoldable pub on_dialog_response : Bool → Run (Session D) (Unit {0})
  unfolding rename_response
  on_dialog_response ok = do u ← data_now D; rename_response ok u.selected_file_info

  unfoldable pub delete_response : Bool → Option Text → Run (Session D) (Unit {0})
  unfolding request_and_free check_and_close
  delete_response true (some file_name) = do
    current_path ← outside D D.path_text
    request_and_free 2 (D.build_filename current_path file_name)
    check_and_close
  delete_response _ _ = check_and_close

  unfoldable pub on_delete_response : Bool → Run (Session D) (Unit {0})
  unfolding delete_response
  on_delete_response ok = do u ← data_now D; delete_response ok u.selected_file_info

  -- The path that g_file_get_path gives is freed by send_message or by nobody.
  unfoldable pub on_new_directory_action : Run (Session D) (Unit {0})
  on_new_directory_action = do
    current_path ← outside D D.path_text
    send_message D 3 (D.build_filename current_path (codes "New Folder"))
    not_done D
    start_backend_check D

  -- The bodies of on_move_dialog_response and on_copy_dialog_response, with two lines of their own.
  unfoldable pub transfer_confirmed : ℕ → String → String → Text → Run (Session D) (Unit {0})
  unfolding request_and_free close_and_check give_up
  transfer_confirmed buf_type from to file_name = do
    dest_path ← outside D D.entry_text
    current_path ← outside D D.path_text
    if str_eq dest_path [] then give_up "Destination path is empty.\n" else (do
      say D from
      say D to
      request_and_free buf_type
          (joined (D.build_filename current_path file_name) (D.build_filename dest_path file_name))
      close_and_check)

  unfoldable pub move_response : Bool → Option Text → Run (Session D) (Unit {0})
  unfolding transfer_confirmed
  move_response true (some file_name) =
      transfer_confirmed 5 "Moving from: %s\n" "Moving to: %s\n" file_name
  move_response _ _ = close_and_check

  unfoldable pub on_move_dialog_response : Bool → Run (Session D) (Unit {0})
  unfolding move_response
  on_move_dialog_response ok = do u ← data_now D; move_response ok u.selected_file_info

  unfoldable pub copy_response : Bool → Option Text → Run (Session D) (Unit {0})
  unfolding transfer_confirmed
  copy_response true (some file_name) =
      transfer_confirmed 6 "Copying from: %s\n" "Copying to: %s\n" file_name
  copy_response _ _ = close_and_check

  unfoldable pub on_copy_dialog_response : Bool → Run (Session D) (Unit {0})
  unfolding copy_response
  on_copy_dialog_response ok = do u ← data_now D; copy_response ok u.selected_file_info

  unfoldable pub chmod_confirmed : Run (Session D) (Unit {0})
  unfolding request_and_free close_and_check give_up
  chmod_confirmed = do
    mode_str ← outside D D.entry_text
    file_path ← outside D D.dialog_path
    let r = strtol_octal mode_str in
        if not (str_eq r.rest []) || out_of_range r
        then give_up "Invalid permission format. Use octal numbers (0-7).\n"
        else request_and_free 7 (joined file_path mode_str) >> close_and_check

  unfoldable pub on_chmod_dialog_response : Bool → Run (Session D) (Unit {0})
  unfolding chmod_confirmed
  on_chmod_dialog_response ok = if ok then chmod_confirmed else close_and_check

  unfoldable pub add_favorite : Option Text → Run (Session D) (Unit {0})
  add_favorite none = say D "No file selected to add to favorites.\n"
  add_favorite (some file_name) = do
    current_path ← outside D D.path_text
    not_done D
    send_favorite_message D (D.build_filename current_path file_name)
        (D.build_filename (codes "/tmp/link") file_name)
    start_backend_check D

  unfoldable pub on_add_to_favorites_action : Run (Session D) (Unit {0})
  unfolding add_favorite
  on_add_to_favorites_action = do u ← data_now D; add_favorite u.selected_file_info

  unfoldable pub quit_queue : Option ℕ → Run (Session D) (Unit {0})
  quit_queue none = skip
  quit_queue (some msgid) = do
    outside D (D.msgsnd msgid (record { mtype = 1; mtext = codes "QUIT" }))
    outside D (D.usleep 100000)
    outside D (D.remove_queue msgid)
    say D "Command message queue removed.\n"

  unfoldable pub quit_key : Option ℕ → Run (Session D) (Unit {0})
  unfolding quit_queue
  quit_key none = skip
  quit_key (some key) = do msgid ← outside D (D.msgget key); quit_queue msgid

  unfoldable pub drop_queue : Option ℕ → Run (Session D) (Unit {0})
  drop_queue none = skip
  drop_queue (some msgid) = do
    outside D (D.remove_queue msgid)
    say D "Response message queue removed.\n"

  unfoldable pub drop_key : Option ℕ → Run (Session D) (Unit {0})
  unfolding drop_queue
  drop_key none = skip
  drop_key (some key) = do msgid ← outside D (D.msgget key); drop_queue msgid

  unfoldable pub on_application_shutdown : Run (Session D) (Unit {0})
  unfolding quit_key drop_key
  on_application_shutdown = do
    command_key ← outside D (D.ftok (codes "command_keyfile"))
    quit_key command_key
    response_key ← outside D (D.ftok (codes "response_keyfile"))
    drop_key response_key
