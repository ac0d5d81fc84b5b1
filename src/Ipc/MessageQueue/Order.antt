-- ===== src/Ipc/MessageQueue/Order.antt =====
-- Which message the child of IPC/05_message_queue.c takes, whatever the order of the steps.
use system_sw_gui_project.Prelude.{
  ℕ, suc, List, [], ◌∷◌, ◌++◌, ◌≡◌, refl, subst, ap, ◌∙◌, Text, All, All-append,
}
use system_sw_gui_project.Ipc.Steps.{parent_moves, child_moves, Step, Reach-keeps}
use system_sw_gui_project.Ipc.MessageQueue.{
  Queues, QueueDocumented, hello, received, Parent, sending, waiting, removing, returned, failed,
  Child, receiving, printing, ended, aborted, Processes, at_fork, ParentMove, send, send_fails,
  reap, remove, remove_fails, ChildMove, receive, receive_fails, show, ReachedIn,
}

-- The first text in the queue, if the parent's is the last one.
abbrev pub first_in : List Text → Text
first_in [] = hello
first_in (oldest ∷ old) = oldest

-- What the parent has added to the queue, as long as the child has not ended.
abbrev Added : Parent → List Text → List Text → Type 0
Added sending old q = q ≡ old
Added waiting old q = q ≡ old ++ hello ∷ []
Added failed old q = q ≡ old
Added _ old q = ⊥

Added-first_in :
    (p : Parent) (old : List Text) (t : Text) (q : List Text)
    → Added p old (t ∷ q)
    → t ≡ first_in old
Added-first_in sending [] t q a = cc a
Added-first_in sending (oldest ∷ old) t q a = cc a
Added-first_in waiting [] t q a = cc a
Added-first_in waiting (oldest ∷ old) t q a = cc a
Added-first_in failed [] t q a = cc a
Added-first_in failed (oldest ∷ old) t q a = cc a
Added-first_in removing old t q a = absurd a
Added-first_in returned old t q a = absurd a

module _ (Q : Queues) (msgid : ℕ) (queue : QueueDocumented Q msgid) (old : List Text) where
  -- Where the child is, with what is in the queue before it has received.
  abbrev Taken : Parent → Child → Q.State → Type 0
  Taken p receiving s = Added p old (queue.queued s)
  Taken p (printing t) s = t ≡ first_in old
  Taken p _ s = Unit

  record Inv (p : Parent) (c : Child) (s : Q.State) (shown : List Text) : Type 0 where
    position : Taken p c s
    printed : All (λ line. line ≡ received (first_in old)) shown

  ParentMove-Taken :
      {p p' : Parent} (c : Child) {s s' : Q.State}
      → ParentMove Q msgid c s p p' s'
      → Taken p c s
      → Taken p' c s'
  ParentMove-Taken receiving {s} (send e) i =
      queue.queued-sent hello s e ∙ ap (λ q. q ++ hello ∷ []) i
  ParentMove-Taken receiving {s} (send_fails e) i = queue.queued-refused hello s e ∙ i
  ParentMove-Taken receiving (reap e) i = cc e
  ParentMove-Taken receiving (remove e) i = absurd i
  ParentMove-Taken receiving (remove_fails e) i = absurd i
  ParentMove-Taken (printing t) mv i = i
  ParentMove-Taken ended mv i = tt
  ParentMove-Taken aborted mv i = tt

  ChildMove-Inv :
      {p : Parent} {c c' : Child} {s s' : Q.State} {shown lines : List Text}
      → ChildMove Q msgid s c c' s' lines
      → Inv p c s shown
      → Inv p c' s' (shown ++ lines)
  ChildMove-Inv {p} {s} {shown} (receive {t} e) i = record {
    position = Added-first_in p old t _ (subst (Added p old) (queue.queued-taken t s e) i.position);
    printed = All-append _ shown [] i.printed tt;
  }
  ChildMove-Inv {shown} (receive_fails e) i = record {
    position = tt;
    printed = All-append _ shown [] i.printed tt;
  }
  ChildMove-Inv {shown} (show {t}) i = record {
    position = tt;
    printed = All-append _ shown _ i.printed (ap received i.position, tt);
  }

  abbrev InvAt : ℕ → Processes Q → Type 0
  InvAt n t = Inv t.parent t.child t.shared t.shown

  Step-Inv :
      (n : ℕ) (t u : Processes Q)
      → InvAt n t
      → Step (ParentMove Q msgid) (ChildMove Q msgid) t u
      → InvAt (suc n) u
  Step-Inv n t u i (parent_moves mv) = record {
    position = ParentMove-Taken t.child mv i.position;
    printed = i.printed;
  }
  Step-Inv n t u i (child_moves mv) = ChildMove-Inv mv i

module _ (Q : Queues) (msgid : ℕ) (queue : QueueDocumented Q msgid) where
  -- Whatever the order of the steps and whichever calls fail: all that the child prints is the
  -- first text of type 1 that was in the queue at the fork, and the parent's message if the queue
  -- had none.
  pub oldest_received :
      (s : Q.State) {n : ℕ} {t : Processes Q}
      → ReachedIn Q msgid s n t
      → All (λ line. line ≡ received (first_in (queue.queued s))) t.shown
  oldest_received s {n} {t} r =
      let i =
        Reach-keeps _ _ (InvAt Q msgid queue (queue.queued s)) first (Step-Inv Q msgid queue _) n t
          r in
      i.printed
    where
      first : InvAt Q msgid queue (queue.queued s) 0 (at_fork Q s)
      first = record { position = refl; printed = tt }
