-- ===== src/Client/Send.antt =====
-- dir_manage_gtk/communication.c, and send_favorite_message of ui_link.c.
use system_sw_gui_project.Prelude.{
  ℕ, String, Bool, true, false, not, Option, none, some, Text, codes, ◌++◌, ◌∷◌, if◌then◌else◌,
}
use system_sw_gui_project.Libc.Strings.{str_eq, truncate}
use system_sw_gui_project.Run.{Run, pure, exit, ◌>>=◌, ◌>>◌, skip, when}
use system_sw_gui_project.Backend.Calls.{Message, text_max}
use system_sw_gui_project.Client.Session.{
  Desktop, Session, update_timer, update_ui_timer, favorites_timer, read_timer, outside, data_now,
  change, say,
}

-- g_strdup_printf("%s$%s", first, second)
unfoldable pub joined : Text → Text → Text
joined first second = first ++ b'$' ∷ second

-- The message that send_message puts into the queue.
unfoldable pub request : ℕ → Text → Message
request buf_type file_path = record { mtype = buf_type; mtext = truncate text_max file_path }

-- The message of send_favorite_message, which is cut at 511 bytes before.
unfoldable pub favorite_request : Text → Text → Message
unfolding joined request
favorite_request src_path dest_path = request 8 (truncate 511 (joined src_path dest_path))

module _ (D : Desktop) where
  -- The result is false where g_free(file_path) has run.
  unfoldable pub refused : String → Run (Session D) Bool
  refused text = do say D text; outside D D.close; pure false

  unfoldable pub send_to : Message → Option ℕ → Run (Session D) Bool
  unfolding refused
  send_to buf none = refused "msgget"
  send_to buf (some msgid) = do
    say D "send : %s\n"
    sent ← outside D (D.msgsnd msgid buf)
    say D (if sent then "Delete request sent for: %s\n" else "msgsnd failed")
    pure true

  unfoldable pub send_key : Message → Option ℕ → Run (Session D) Bool
  unfolding refused send_to
  send_key buf none = refused "ftok"
  send_key buf (some key) = do msgid ← outside D (D.msgget key); send_to buf msgid

  unfoldable pub send_message : ℕ → Text → Run (Session D) Bool
  unfolding request send_key
  send_message buf_type file_path = do
    key ← outside D (D.ftok (codes "command_keyfile"))
    send_key (request buf_type file_path) key

  unfoldable pub favorite_to : Message → Option ℕ → Run (Session D) (Unit {0})
  favorite_to buf none = say D "msgget"
  favorite_to buf (some msgid) = do
    sent ← outside D (D.msgsnd msgid buf)
    say D (if sent then "Symlink request sent: %s\n" else "msgsnd failed")

  unfoldable pub favorite_key : Message → Option ℕ → Run (Session D) (Unit {0})
  unfolding favorite_to
  favorite_key buf none = say D "ftok"
  favorite_key buf (some key) = do msgid ← outside D (D.msgget key); favorite_to buf msgid

  unfoldable pub send_favorite_message : Text → Text → Run (Session D) (Unit {0})
  unfolding favorite_request favorite_key
  send_favorite_message src_path dest_path = do
    key ← outside D (D.ftok (codes "command_keyfile"))
    favorite_key (favorite_request src_path dest_path) key

  unfoldable pub update : Run (Session D) (Unit {0})
  update = do
    path ← outside D D.path_text
    dir ← outside D (D.is_dir path)
    if dir
        then (do outside D (D.set_directory none); outside D (D.timeout_add 100 update_ui_timer))
        else say D "Invalid directory path: %s\n"

  unfoldable pub update_ui : Run (Session D) (Unit {0})
  update_ui = do
    path ← outside D D.path_text
    shown ← outside D (D.set_directory (some path))
    say D (
        if shown
        then "Directory list updated for path: %s\n"
        else "Failed to create GFile for path: %s\n")

  unfoldable pub on_backend_message_received : Text → Run (Session D) (Unit {0})
  on_backend_message_received message = do
    say D "Message received(back): %s\n"
    if str_eq message (codes "success")
        then (do
          change D (λ u. record u { is_backend_done = true })
          outside D (D.timeout_add 200 update_timer)
          outside D (D.timeout_add 300 favorites_timer)
          say D "Update scheduled\n")
        else say D "Unknown message: %s\n"

  unfoldable pub received : Option Message → Run (Session D) (Unit {0})
  unfolding on_backend_message_received
  received none = skip
  received (some mbuf) = do say D "recived : %s\n"; on_backend_message_received mbuf.mtext

  unfoldable pub read_queue : Option ℕ → Run (Session D) (Unit {0})
  unfolding received
  read_queue none = do say D "msgget (response)"; exit 1
  read_queue (some msgid) = do mbuf ← outside D (D.msgrcv msgid 10); received mbuf

  unfoldable pub read_key : Option ℕ → Run (Session D) (Unit {0})
  unfolding read_queue
  read_key none = say D "ftok (response)"
  read_key (some key) = do msgid ← outside D (D.msgget key); read_queue msgid

  -- One poll; the timer stays.
  unfoldable pub read_backend_message : Run (Session D) (Unit {0})
  unfolding read_key
  read_backend_message = do key ← outside D (D.ftok (codes "response_keyfile")); read_key key

  unfoldable pub start_backend_check : Run (Session D) (Unit {0})
  start_backend_check = do
    u ← data_now D
    when (not u.is_check_running) (do
      outside D (D.timeout_add 1000 read_timer)
      change D (λ v. record v { is_check_running = true }))
