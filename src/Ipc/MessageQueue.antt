-- ===== src/Ipc/MessageQueue.antt =====
-- IPC/05_message_queue.c: the parent sends a message that the child waits for.
pub mod Order
use system_sw_gui_project.Prelude.{
  ℕ, Bool, true, false, Option, none, some, ℤ, List, [], ◌∷◌, ◌++◌, ◌≡◌, Text, codes,
}
use system_sw_gui_project.Run.{Op, Run, pure, exit, call, ◌>>=◌}
use system_sw_gui_project.Ipc.Steps.{System, Reach}

-- What msgrcv does: it blocks the process, fails, or takes a message.
pub data Receipt : Type 0 where
  blocked refused : Receipt
  taken : Text → Receipt

-- The calls. msgsnd takes the type and the text, msgrcv the type that is asked for.
pub record Queues : Type 1 where
  pub State : Type 0
  pub ftok : Text → ℕ → Op State ℤ
  pub msgget : ℤ → Op State (Option ℕ)
  pub fork : Op State Bool
  pub msgsnd : ℕ → ℕ → Text → Op State Bool
  pub msgrcv : ℕ → ℕ → Op State Receipt
  pub msgctl_rmid : ℕ → Op State Bool

-- The texts of type 1 in a queue, in the order in which they were sent: msgrcv takes the first one
-- and blocks only if there is none, msgsnd appends a text or fails.
pub record QueueDocumented (Q : Queues) (msgid : ℕ) : Type 0 where
  pub queued : Q.State → List Text
  pub queued-fork : (s : Q.State) → queued (Q.fork s).1 ≡ queued s
  pub queued-sent :
      (t : Text) (s : Q.State)
      → (Q.msgsnd msgid 1 t s).0 ≡ true
      → queued (Q.msgsnd msgid 1 t s).1 ≡ queued s ++ t ∷ []
  pub queued-refused :
      (t : Text) (s : Q.State)
      → (Q.msgsnd msgid 1 t s).0 ≡ false
      → queued (Q.msgsnd msgid 1 t s).1 ≡ queued s
  pub queued-taken :
      (t : Text) (s : Q.State)
      → (Q.msgrcv msgid 1 s).0 ≡ taken t
      → queued s ≡ t ∷ queued (Q.msgrcv msgid 1 s).1
  pub receipt-blocked : (s : Q.State) → (Q.msgrcv msgid 1 s).0 ≡ blocked → queued s ≡ []

abbrev pub hello : Text
hello = codes "Hello, child process!"

abbrev pub received : Text → Text
received msg_text = codes "Child process received message: " ++ msg_text ++ codes "\n"

-- Where the parent is: before msgsnd, wait and msgctl, and at its end.
pub data Parent : Type 0 where
  sending waiting removing returned failed : Parent

-- Where the child is: before msgrcv and printf, and at its end.
pub data Child : Type 0 where
  receiving : Child
  printing : Text → Child
  ended aborted : Child

abbrev pub has_ended : Child → Bool
has_ended ended = true
has_ended aborted = true
has_ended _ = false

module _ (Q : Queues) where
  -- main up to the fork: the identifier, with which both processes go on.
  unfoldable pub forked : ℕ → Bool → Run Q.State ℕ
  forked msgid true = pure msgid
  forked msgid false = exit 1

  unfoldable pub with_queue : Option ℕ → Run Q.State ℕ
  unfolding forked
  with_queue (some msgid) = call Q.fork >>= forked msgid
  with_queue none = exit 1

  unfoldable pub main : Run Q.State ℕ
  unfolding with_queue
  main = do key ← call (Q.ftok (codes "msgqueue") 65); msgid ← call (Q.msgget key); with_queue msgid

  abbrev pub Processes : Type 0
  Processes = System Q.State Parent Child

  abbrev pub at_fork : Q.State → Processes
  at_fork s = record { parent = sending; child = receiving; shared = s; shown = [] }

  module _ (msgid : ℕ) where
    pub data ParentMove (c : Child) (s : Q.State) : Parent → Parent → Q.State → Type 0 where
      send :
          (Q.msgsnd msgid 1 hello s).0 ≡ true
          → ParentMove c s sending waiting (Q.msgsnd msgid 1 hello s).1
      send_fails :
          (Q.msgsnd msgid 1 hello s).0 ≡ false
          → ParentMove c s sending failed (Q.msgsnd msgid 1 hello s).1
      reap : has_ended c ≡ true → ParentMove c s waiting removing s
      remove :
          (Q.msgctl_rmid msgid s).0 ≡ true
          → ParentMove c s removing returned (Q.msgctl_rmid msgid s).1
      remove_fails :
          (Q.msgctl_rmid msgid s).0 ≡ false
          → ParentMove c s removing failed (Q.msgctl_rmid msgid s).1

    pub data ChildMove (s : Q.State) : Child → Child → Q.State → List Text → Type 0 where
      receive :
          {t : Text}
          → (Q.msgrcv msgid 1 s).0 ≡ taken t
          → ChildMove s receiving (printing t) (Q.msgrcv msgid 1 s).1 []
      receive_fails :
          (Q.msgrcv msgid 1 s).0 ≡ refused → ChildMove s receiving aborted (Q.msgrcv msgid 1 s).1 []
      show : {t : Text} → ChildMove s (printing t) ended s (received t ∷ [])

    abbrev pub ReachedIn : Q.State → ℕ → Processes → Type 0
    ReachedIn s = Reach ParentMove ChildMove (at_fork s)
