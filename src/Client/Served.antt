-- ===== src/Client/Served.antt =====
-- What becomes of the requests of the window: the loop of backend.c does what they ask for.
use system_sw_gui_project.Prelude.{
  ℕ, suc, ◌+◌, ◌≤◌, ◌<◌, ◌≡◌, refl, ap, ◌∙◌, true, false, List, [], ◌∷◌, ◌++◌, map, Text, codes,
  length, All, arith,
}
use system_sw_gui_project.Run.{Run, call, ◌>>=◌, ◌>>◌}
use system_sw_gui_project.Backend.Calls.{Calls, Message, note}
use system_sw_gui_project.Backend.Files.{rename_tokens, rename_file_or_directory}
use system_sw_gui_project.Backend.Requests.{
  handle, handle_delete, handle_mkdir, handle_rename, move, copy, change_mode, favorite,
  answer_success, is_quit, serve,
}
use system_sw_gui_project.Backend.Serves.{Serial, serve_each}
use system_sw_gui_project.Backend.Serves.Order.{serve-each}
use system_sw_gui_project.Client.Send.{request, favorite_request}
use system_sw_gui_project.Client.Outbox.{
  Asked, deleting, new_directory, renaming, moving, copying, changing_mode, adding_favorite, sent,
  Confirmed, encode, sent-encode,
}
use system_sw_gui_project.Client.Requests.{IsPart, truncate_short, tokens-request, handle-request}

-- Two paths that fit into one message.
abbrev pub Pair : Text → Text → Type 0
Pair p q = IsPart p × IsPart q × (length p + length q ≤ 254)

-- The paths fit into the message, and two of them have no dollar sign in them.
abbrev pub Fits : (Text → Text → Text) → Asked → Type 0
Fits build (deleting path name) = length (build path name) ≤ 255
Fits build (new_directory path) = length (build path (codes "New Folder")) ≤ 255
Fits build (renaming path name new) = Pair (build path name) (build path new)
Fits build (moving path name dest) = Pair (build path name) (build dest name)
Fits build (copying path name dest) = Pair (build path name) (build dest name)
Fits build (changing_mode file mode) = Pair file mode
Fits build (adding_favorite path name) = Pair (build path name) (build (codes "/tmp/link") name)

module _ (build : Text → Text → Text) where
  -- What the callbacks have sent, one after the other.
  abbrev pub sent_all : List Asked → List Message
  sent_all [] = []
  sent_all (x ∷ xs) = sent build x ++ sent_all xs

  sent_all-encode :
      (xs : List Asked) → All (Confirmed build) xs → sent_all xs ≡ map (encode build) xs
  sent_all-encode [] c = refl
  sent_all-encode (x ∷ xs) (c, cs) = rw (sent-encode build x c, sent_all-encode xs cs) refl

  length-encode : (xs : List Asked) → length (map (encode build) xs) ≡ length xs
  length-encode [] = refl
  length-encode (x ∷ xs) = ap suc (length-encode xs)

module _ (build : Text → Text → Text) (K : Calls) (depth fuel r msgid : ℕ) where
  -- What is asked for, as a handler of the backend.
  unfoldable pub perform : Asked → Run K.State (Unit {0})
  perform (deleting path name) = handle_delete K depth fuel r (build path name)
  perform (new_directory path) = handle_mkdir K depth fuel r (build path (codes "New Folder"))
  perform (renaming path name new) = do
    renamed ← rename_tokens K (build path name ∷ build path new ∷ [])
    answer_success K depth fuel r "Successfully renamed: %s\n" "Failed to rename: %s\n" renamed
  perform (moving path name dest) = move K depth fuel r (build path name) (build dest name)
  perform (copying path name dest) = copy K depth fuel r (build path name) (build dest name)
  perform (changing_mode file mode) = change_mode K depth fuel r file mode
  perform (adding_favorite path name) =
      favorite K depth fuel r (build path name) (build (codes "/tmp/link") name)

  unfoldable pub perform_each : List Asked → Run K.State (Unit {0})
  unfolding perform
  perform_each [] = call (K.msgrcv msgid) >> note K "Received quit signal. Exiting...\n"
  perform_each (x ∷ xs) =
      call (K.msgrcv msgid)
      >> (note K "Received delete request for: %s\n" >> perform x >> perform_each xs)

  handle-encode : (x : Asked) → Fits build x → handle K depth fuel r (encode build x) ≡ perform x
  unfolding handle encode request perform handle_rename rename_file_or_directory
  handle-encode (deleting path name) h = ap (handle_delete K depth fuel r) (truncate_short 255 _ h)
  handle-encode (new_directory path) h = ap (handle_mkdir K depth fuel r) (truncate_short 255 _ h)
  handle-encode (renaming path name new) (a, b, h) =
      ap
        (λ ts.
          rename_tokens K ts
          >>= answer_success K depth fuel r "Successfully renamed: %s\n" "Failed to rename: %s\n")
        (tokens-request 4 _ _ a b h)
  handle-encode (moving path name dest) (a, b, h) = (handle-request K depth fuel r _ _ a b h).0
  handle-encode (copying path name dest) (a, b, h) = (handle-request K depth fuel r _ _ a b h).1
  handle-encode (changing_mode file mode) (a, b, h) = (handle-request K depth fuel r _ _ a b h).2
  handle-encode (adding_favorite path name) (a, b, h) = (handle-request K depth fuel r _ _ a b h).3

  encode-not_quit : (x : Asked) → is_quit K depth fuel r (encode build x) ≡ false
  unfolding encode request favorite_request is_quit
  encode-not_quit (deleting path name) = refl
  encode-not_quit (new_directory path) = refl
  encode-not_quit (renaming path name new) = refl
  encode-not_quit (moving path name dest) = refl
  encode-not_quit (copying path name dest) = refl
  encode-not_quit (changing_mode file mode) = refl
  encode-not_quit (adding_favorite path name) = refl

  none_quits :
      (xs : List Asked) → All (λ buf. is_quit K depth fuel r buf ≡ false) (map (encode build) xs)
  none_quits [] = tt
  none_quits (x ∷ xs) = (encode-not_quit x, none_quits xs)

  each-encode :
      (xs : List Asked)
      → All (Fits build) xs
      → serve_each K depth fuel r msgid (map (encode build) xs) ≡ perform_each xs
  unfolding serve_each perform_each
  each-encode [] h = refl
  each-encode (x ∷ xs) (h, hs) = rw (handle-encode x h, each-encode xs hs) refl

  -- If the queue holds what confirmed callbacks of the window have sent, in any number and order,
  -- and then the message QUIT, the backend does just what was asked for, in this order, and stops.
  -- ftok, msgget and msgsnd succeed for the callbacks. A path or a pair of texts has to fit into a
  -- message, and a pair to be of texts that are not empty and have no dollar sign; more calls of
  -- msgrcv are allowed than there are requests, a call of msgrcv takes the first message without
  -- fail, and no other call takes one.
  pub serve-sent :
      (queued : K.State → List Message)
      → Serial K msgid queued
      → (xs : List Asked) (rounds : ℕ) (quit : Message) (rest : List Message) (s : K.State)
      → All (Confirmed build) xs
      → All (Fits build) xs
      → length xs < rounds
      → is_quit K depth fuel r quit ≡ true
      → queued s ≡ sent_all build xs ++ quit ∷ rest
      → serve K depth fuel r rounds msgid s ≡ perform_each xs s
  serve-sent queued k xs rounds quit rest s c fit l e h =
      serve-each K depth fuel r msgid queued k (map (encode build) xs) rounds quit rest s
        (omega (arith, l, length-encode build xs)) (none_quits xs) e
        (h ∙ ap (λ q. q ++ quit ∷ rest) (sent_all-encode build xs c))
      ∙ ap (λ m. m s) (each-encode xs fit)

  -- Of one confirmed callback: what it has sent is one message, on which the backend does what was
  -- asked for.
  pub handle-sent :
      (x : Asked)
      → Confirmed build x
      → Fits build x
      → (buf : Message) × (sent build x ≡ buf ∷ []) × (handle K depth fuel r buf ≡ perform x)
  handle-sent x c f = (encode build x, sent-encode build x c, handle-encode x f)
