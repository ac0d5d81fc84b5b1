-- ===== src/Backend/Requests.antt =====
-- The handlers of backend.c's main loop, one for each message type, and the loop.
use system_sw_gui_project.Prelude.{
  String, ℕ, zero, suc, ◌+◌, ◌%◌, Bool, true, false, ◌&&◌, Option, none, some, List, [], ◌∷◌, ◌++◌,
  ◌==◌, if◌then◌else◌, Text, codes, length,
}
use system_sw_gui_project.Libc.Strings.{str_eq, tokens}
use system_sw_gui_project.Libc.Numbers.{strtol_octal, to_mode}
use system_sw_gui_project.Run.{Run, pure, call, exit, starve, ◌>>=◌, ◌>>◌, skip}
use system_sw_gui_project.Backend.Calls.{
  Calls, Kind, directory, Made, made, eexist, failed, Message, note, send_response,
}
use system_sw_gui_project.Backend.Files.{
  is_dollar, remove_file_or_directory, rename_file_or_directory, move_directory, copy_file,
}

-- The type of a response.
abbrev pub response_type : ℕ
response_type = 10

module _ (K : Calls) (depth fuel : ℕ) (response_msgid : ℕ) where
  unfoldable pub succeed : Run K.State (Unit {0})
  succeed = send_response K response_msgid response_type (codes "success")

  unfoldable pub fail : Run K.State (Unit {0})
  fail = send_response K response_msgid response_type (codes "failed")

  -- Types 5 to 8 answer either way, after a line for success or for failure.
  unfoldable pub answer : String → String → Bool → Run K.State (Unit {0})
  unfolding succeed fail
  answer good bad true = note K good >> succeed
  answer good bad false = note K bad >> fail

  -- Types 2 and 4 answer only if they succeed.
  unfoldable pub answer_success : String → String → Bool → Run K.State (Unit {0})
  unfolding succeed
  answer_success good bad true = note K good >> succeed
  answer_success good bad false = note K bad

  unfoldable pub handle_delete : Text → Run K.State (Unit {0})
  unfolding answer_success
  handle_delete path = do
    deleted ← remove_file_or_directory K path
    answer_success "Successfully deleted: %s\n" "Failed to delete: %s\n" deleted

  -- `file`: the requested path with a digit behind it.
  abbrev pub numbered : Text → ℕ → Text
  numbered path digit = path ++ (b'0' + digit) ∷ []

  -- One mkdir for the digit in the buffer, with the rounds that `count < 11` leaves. After EEXIST
  -- the digit becomes count % 10, and count one more.
  unfoldable pub mkdir_loop : ℕ → ℕ → ℕ → Text → Run K.State (Unit {0})
  unfolding succeed
  mkdir_loop zero count digit path = skip
  mkdir_loop (suc rounds) count digit path = do
    result ← call (K.mkdir (numbered path digit) 0o755)
    elim result [
      | made ↦ succeed
      | eexist ↦ mkdir_loop rounds (count + 1) (count % 10) path
      | failed ↦ note K "mkdir"
    ]

  unfoldable pub handle_mkdir : Text → Run K.State (Unit {0})
  unfolding mkdir_loop
  handle_mkdir path = do
    allocated ← call (K.malloc (length path + 2))
    if allocated
        then (do mkdir_loop 11 0 0 path; note K "Failed to mkdir")
        else note K "malloc" >> exit 1

  unfoldable pub handle_rename : Text → Run K.State (Unit {0})
  unfolding answer_success
  handle_rename text = do
    renamed ← rename_file_or_directory K text
    answer_success "Successfully renamed: %s\n" "Failed to rename: %s\n" renamed

  -- stat(dest_dir, &st) == 0 && S_ISDIR(st.st_mode)
  abbrev pub is_directory : Option (Kind × ℕ) → Bool
  is_directory (some (directory, mode)) = true
  is_directory _ = false

  abbrev not_there : String
  not_there = "Destination directory does not exist: %s\n"

  unfoldable pub answer_moved : Bool → Run K.State (Unit {0})
  unfolding answer
  answer_moved = answer "Successfully moved using copy: %s -> %s\n" "Failed to move file/directory"

  unfoldable pub move : Text → Text → Run K.State (Unit {0})
  unfolding answer_moved answer
  move src_path dest_path = do
    found ← call (K.stat (K.dirname dest_path))
    if is_directory found
        then (do
          renamed ← call (K.rename src_path dest_path)
          if renamed
              then answer "Successfully moved: %s -> %s\n" not_there true
              else (do moved ← move_directory K depth fuel src_path dest_path; answer_moved moved))
        else answer "" not_there false

  unfoldable pub copy : Text → Text → Run K.State (Unit {0})
  unfolding answer
  copy src_path dest_path = do
    found ← call (K.stat (K.dirname dest_path))
    if is_directory found
        then (do
          copied ← copy_file K depth fuel src_path dest_path
          answer "Successfully copied: %s -> %s\n" "Failed to copy" copied)
        else answer "" not_there false

  unfoldable pub answer_changed : Bool → Run K.State (Unit {0})
  unfolding answer
  answer_changed =
      answer "Successfully changed permissions for %s to %s\n" "Failed to change permissions"

  -- strtol may read an empty number, but the token itself is not empty.
  unfoldable pub change_mode : Text → Text → Run K.State (Unit {0})
  unfolding answer_changed
  change_mode path mode_str =
      let r = strtol_octal mode_str in
      if str_eq r.rest []
      then (do changed ← call (K.chmod path (to_mode r)); answer_changed changed)
      else answer_changed false

  abbrev pub no_link : String
  no_link = "Failed to create symlink"

  -- What the second symlink returns.
  unfoldable pub linked : Made → Run K.State (Unit {0})
  unfolding answer
  linked made = answer "Successfully updated symlink: %s -> %s\n" no_link true
  linked _ = answer "" no_link false

  -- After EEXIST the old link is removed, and symlink tried once more.
  unfoldable pub link_again : Text → Text → Made → Run K.State (Unit {0})
  unfolding answer linked
  link_again src_path dest_path made =
      answer "Successfully created symlink: %s -> %s\n" no_link true
  link_again src_path dest_path failed = answer "" no_link false
  link_again src_path dest_path eexist = do
    call (K.unlink dest_path)
    again ← call (K.symlink src_path dest_path)
    linked again

  abbrev pub is_missing : Option (Kind × ℕ) → Bool
  is_missing none = true
  is_missing (some _) = false

  unfoldable pub favorite : Text → Text → Run K.State (Unit {0})
  unfolding link_again
  favorite src_path dest_path = do
    found ← call (K.stat (codes "/tmp/link"))
    if is_missing found then call (K.mkdir (codes "/tmp/link") 0o755) >> skip else skip
    result ← call (K.symlink src_path dest_path)
    link_again src_path dest_path result

  -- The two tokens of a request; with fewer, nothing happens and nothing is answered.
  unfoldable pub with_tokens :
      (Text → Text → Run K.State (Unit {0})) → List Text → Run K.State (Unit {0})
  with_tokens handler (first ∷ second ∷ _) = handler first second
  with_tokens handler _ = skip

  unfoldable pub handle : Message → Run K.State (Unit {0})
  unfolding handle_delete handle_mkdir handle_rename move copy change_mode favorite with_tokens
  handle buf =
      let parts = tokens is_dollar buf.mtext in
      if buf.mtype == 2
      then handle_delete buf.mtext
      else if buf.mtype == 3
      then handle_mkdir buf.mtext
      else if buf.mtype == 4
      then handle_rename buf.mtext
      else if buf.mtype == 5
      then with_tokens move parts
      else if buf.mtype == 6
      then with_tokens copy parts
      else if buf.mtype == 7
      then with_tokens change_mode parts
      else if buf.mtype == 8
      then with_tokens favorite parts
      else skip

  unfoldable pub is_quit : Message → Bool
  is_quit buf = buf.mtype == 1 && str_eq buf.mtext (codes "QUIT")

  -- The while loop, for at most `rounds` calls of msgrcv.
  unfoldable pub serve : ℕ → ℕ → Run K.State (Unit {0})
  unfolding is_quit
  serve zero msgid = starve
  serve (suc rounds) msgid = do
    received ← call (K.msgrcv msgid)
    elim received [
      | none ↦ note K "msgrcv" >> serve rounds msgid
      | some buf ↦ elim (is_quit buf) [
        | true ↦ note K "Received quit signal. Exiting...\n"
        | false ↦ note K "Received delete request for: %s\n" >> handle buf >> serve rounds msgid
      ]
    ]

module _ (K : Calls) where
  unfoldable pub or_exit : {A : Type 0} → Option A → Run K.State A
  or_exit none = do note K "perror"; exit 1
  or_exit (some a) = pure a

  -- access, fopen, ftok and msgget for one key file.
  unfoldable pub open_queue : Text → Run K.State ℕ
  unfolding or_exit
  open_queue keyfile = do
    exists ← call (K.create keyfile)
    if exists then skip else note K "Failed to create keyfile" >> exit 1
    found ← call (K.ftok keyfile)
    key ← or_exit found
    queue ← call (K.msgget key)
    or_exit queue

  unfoldable pub main : ℕ → ℕ → ℕ → Run K.State (Unit {0})
  unfolding open_queue
  main depth fuel rounds = do
    msgid ← open_queue (codes "command_keyfile")
    response_msgid ← open_queue (codes "response_keyfile")
    note K "Backend process started. Waiting for delete requests...\n"
    serve K depth fuel response_msgid rounds msgid
