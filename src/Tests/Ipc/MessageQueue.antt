-- ===== src/Tests/Ipc/MessageQueue.antt =====
-- A run of IPC/05_message_queue.c on a queue that an earlier run has left.
use system_sw_gui_project.Prelude.{
  true, some, pos, List, [], ◌∷◌, ◌++◌, ◌≡◌, refl, Text, All, codes,
}
use system_sw_gui_project.Ipc.Steps.{start, later, parent_moves, child_moves}
use system_sw_gui_project.Ipc.MessageQueue.{
  Receipt, blocked, taken, Queues, QueueDocumented, hello, received, waiting, ended, Processes,
  ReachedIn, send, receive, show,
}
use system_sw_gui_project.Ipc.MessageQueue.Order.{oldest_received}

abbrev receive_first : List Text → Receipt × List Text
receive_first [] = (blocked, [])
receive_first (t ∷ queue) = (taken t, queue)

-- One queue, in which every text is of type 1.
abbrev queues : Queues
queues = record {
  State = List Text;
  ftok = λ path n s. (pos n, s);
  msgget = λ key s. (some 5, s);
  fork = λ s. (true, s);
  msgsnd = λ msgid type t s. (true, s ++ t ∷ []);
  msgrcv = λ msgid type s. receive_first s;
  msgctl_rmid = λ msgid s. (true, s);
}

receive_first-taken :
    (t : Text) (s : List Text) → (receive_first s).0 ≡ taken t → s ≡ t ∷ (receive_first s).1
receive_first-taken t [] e = cc e
receive_first-taken t (x ∷ s) e = cc e

receive_first-blocked : (s : List Text) → (receive_first s).0 ≡ blocked → s ≡ []
receive_first-blocked [] e = refl
receive_first-blocked (x ∷ s) e = cc e

abbrev queue : QueueDocumented queues 5
queue = record {
  queued = λ s. s;
  queued-fork = λ s. refl;
  queued-sent = λ t s e. refl;
  queued-refused = λ t s e. cc e;
  queued-taken = receive_first-taken;
  receipt-blocked = receive_first-blocked;
}

abbrev shown_old : Processes queues
shown_old = record {
  parent = waiting;
  child = ended;
  shared = hello ∷ [];
  shown = received (codes "old") ∷ [];
}

run : ReachedIn queues 5 (codes "old" ∷ []) 3 shown_old
run =
    later (later (later start (parent_moves (send refl))) (child_moves (receive refl)))
      (child_moves show)

oldest_received_example : All (λ line. line ≡ received (codes "old")) shown_old.shown
oldest_received_example = oldest_received queues 5 queue (codes "old" ∷ []) run
