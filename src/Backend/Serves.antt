-- ===== src/Backend/Serves.antt =====
-- The loop of backend.c: what it does with the requests in its queue.
pub mod Handlers
pub mod Order
use system_sw_gui_project.Prelude.{
  ℕ, zero, suc, ◌<◌, ◌≡◌, refl, sym, ap, ◌∙◌, String, Bool, true, false, Option, none, some, List,
  [], ◌∷◌, ◌++◌, ◌==◌, if◌then◌else◌, Text, codes, length, All, arith,
}
use system_sw_gui_project.Libc.Strings.{str_eq, tokens}
use system_sw_gui_project.Libc.Numbers.{strtol_octal}
use system_sw_gui_project.Run.{
  Outcome, done, exited, crashed, out_of_fuel, Run, continue, call, ◌>>=◌, ◌>>◌, skip,
}
use system_sw_gui_project.Run.Keeps.{
  Keeps, KeepsOp, Keeps-pure, Keeps-exit, Keeps-call, Keeps-if, Keeps-bind,
}
use system_sw_gui_project.Backend.Calls.{
  Calls, Made, made, eexist, failed, Message, note, send_response,
}
use system_sw_gui_project.Backend.Files.{is_dollar, rename_tokens, rename_file_or_directory}
use system_sw_gui_project.Backend.Allows.{Allows, allows_rules}
use system_sw_gui_project.Backend.Allows.Files.{
  move_directory-Keeps, copy_file-Keeps, remove_file_or_directory-Keeps, rename_tokens-Keeps,
}
use system_sw_gui_project.Backend.Requests.{
  succeed, fail, answer, answer_success, handle_delete, mkdir_loop, handle_mkdir, handle_rename,
  answer_moved, move, copy, answer_changed, change_mode, linked, link_again, is_directory,
  is_missing, favorite, with_tokens, handle, is_quit, serve,
}

-- `queued` is what msgrcv will return from the queue of requests, one after the other: a call of
-- msgrcv takes the first message without fail, and no other call takes one.
pub record Serial (K : Calls) (msgid : ℕ) (queued : K.State → List Message) : Type 0 where
  pub others : (q : List Message) → Allows K (λ s. queued s ≡ q) (λ _. Unit)
  pub symlink : (q : List Message) (p t : Text) → KeepsOp (λ s. queued s ≡ q) (K.symlink p t)
  pub malloc : (q : List Message) (n : ℕ) → KeepsOp (λ s. queued s ≡ q) (K.malloc n)
  pub msgsnd : (q : List Message) (r : ℕ) (m : Message) → KeepsOp (λ s. queued s ≡ q) (K.msgsnd r m)
  pub taken :
      (m : Message) (ms : List Message) (s : K.State)
      → queued s ≡ m ∷ ms
      → ((K.msgrcv msgid s).0 ≡ some m) × (queued (K.msgrcv msgid s).1 ≡ ms)

module _ (K : Calls) (depth fuel response_msgid msgid : ℕ) where
  -- A round for each request, and one for the message that ends the loop.
  unfoldable pub serve_each : List Message → Run K.State (Unit {0})
  serve_each [] = call (K.msgrcv msgid) >> note K "Received quit signal. Exiting...\n"
  serve_each (buf ∷ bufs) =
      call (K.msgrcv msgid)
      >> (note K "Received delete request for: %s\n"
          >> handle K depth fuel response_msgid buf
          >> serve_each bufs)
