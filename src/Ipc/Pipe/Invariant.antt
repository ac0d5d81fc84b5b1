-- ===== src/Ipc/Pipe/Invariant.antt =====
-- What is in the pipe of IPC/01_pipe.c, and who has its ends open, whatever the order of the steps.
use system_sw_gui_project.Prelude.{
  ℕ, suc, Bool, true, false, none, some, List, [], ◌++◌, ◌+◌, ◌≤◌, ◌≡◌, ◌≢◌, ◌⊎◌, length, inl, inr,
  refl, sym, ap, ◌∙◌, Text, All, All-append, arith,
}
use system_sw_gui_project.Ipc.Steps.{parent_moves, child_moves, Reach-keeps}
use system_sw_gui_project.Ipc.Pipe.{
  Pipes, PipeDocumented, write_msg, message, c_string, received, Parent, closing_read, writing,
  closing_write, returned, Child, starting, reading, printing, leaving, ended, ParentMove,
  close_read, write, close_write, ChildMove, close_own, read_filled, read_empty, show, show_more,
  show_unset, leave, Processes, at_fork, StepOf, ReachedIn,
}

-- Whether a process has its write end open.
abbrev pub parent_open : Parent → ℕ
parent_open (returned ok) = 0
parent_open p = 1

abbrev pub child_open : Child → ℕ
child_open starting = 1
child_open c = 0

-- What the parent has put into the pipe.
abbrev pub sent : Parent → Text
sent (closing_write true) = message
sent (returned true) = message
sent p = []

-- What came out of the pipe was the message, and nothing did only if write had failed.
sent-filled : (p : Parent) (t : Text) → sent p ≡ t → t ≢ [] → t ≡ message
sent-filled closing_read t e n = absurd (n (sym e))
sent-filled writing t e n = absurd (n (sym e))
sent-filled (closing_write true) t e n = sym e
sent-filled (closing_write false) t e n = absurd (n (sym e))
sent-filled (returned true) t e n = sym e
sent-filled (returned false) t e n = absurd (n (sym e))

sent-le : (p : Parent) → length (sent p) ≤ 100
sent-le closing_read = omega arith
sent-le writing = omega arith
sent-le (closing_write true) = omega arith
sent-le (closing_write false) = omega arith
sent-le (returned true) = omega arith
sent-le (returned false) = omega arith

c_string-message : c_string message ≡ some write_msg
unfolding c_string
c_string-message = refl

sent-empty : (p : Parent) → sent p ≡ [] → parent_open p ≡ 0 → p ≡ returned false
sent-empty (returned false) e z = refl
sent-empty (returned true) e z = cc e
sent-empty closing_read e z = absurd (omega (arith, z))
sent-empty writing e z = absurd (omega (arith, z))
sent-empty (closing_write ok) e z = absurd (omega (arith, z))

module _ (K : Pipes) (pipe : PipeDocumented K) where
  abbrev pub Held : Parent → Child → K.State → Type 0
  Held p starting s = pipe.content s ≡ sent p
  Held p reading s = pipe.content s ≡ sent p
  Held p (printing (some t)) s = t ≡ message
  Held p (printing none) s = p ≡ returned false
  Held p c s = Unit

  abbrev pub Printed : Parent → List Text → Type 0
  Printed p shown = All (λ line. line ≡ received write_msg) shown ⊎ (p ≡ returned false)

  pub record Inv (p : Parent) (c : Child) (s : K.State) (shown : List Text) : Type 0 where
    pub open_ends : pipe.writers s ≡ parent_open p + child_open c
    pub held : Held p c s
    pub printed : Printed p shown

  Printed-append :
      (p : Parent) (shown lines : List Text)
      → Printed p shown
      → Printed p lines
      → Printed p (shown ++ lines)
  Printed-append p shown lines (inl h) (inl k) = inl (All-append _ shown lines h k)
  Printed-append p shown lines (inr e) k = inr e
  Printed-append p shown lines (inl h) (inr e) = inr e

  -- A process that has returned does not move.
  ParentMove-Printed :
      (shown : List Text) {c : Child} {s s' : K.State} {p p' : Parent}
      → ParentMove K c s p p' s'
      → Printed p shown
      → Printed p' shown
  ParentMove-Printed shown mv (inl h) = inl h
  ParentMove-Printed shown close_read (inr e) = cc e
  ParentMove-Printed shown (write w) (inr e) = cc e
  ParentMove-Printed shown close_write (inr e) = cc e

  content-write :
      (ok : Bool) (s : K.State)
      → (K.write message s).0 ≡ ok
      → pipe.content s ≡ []
      → pipe.content (K.write message s).1 ≡ sent (closing_write ok)
  content-write true s w e = pipe.content-written message s w ∙ ap (λ q. q ++ message) e
  content-write false s w e = pipe.content-refused message s w ∙ e

  sent-returned : (ok : Bool) → sent (closing_write ok) ≡ sent (returned ok)
  sent-returned true = refl
  sent-returned false = refl

  ParentMove-Held :
      (c : Child) {s s' : K.State} {p p' : Parent}
      → ParentMove K c s p p' s'
      → Held p c s
      → Held p' c s'
  ParentMove-Held starting {s} close_read h = pipe.content-close_read s ∙ h
  ParentMove-Held reading {s} close_read h = pipe.content-close_read s ∙ h
  ParentMove-Held starting {s} (write {ok} w) h = content-write ok s w h
  ParentMove-Held reading {s} (write {ok} w) h = content-write ok s w h
  ParentMove-Held starting {s} (close_write {ok}) h =
      pipe.content-close_write s ∙ h ∙ sent-returned ok
  ParentMove-Held reading {s} (close_write {ok}) h =
      pipe.content-close_write s ∙ h ∙ sent-returned ok
  ParentMove-Held (printing (some t)) mv h = h
  ParentMove-Held (printing none) close_read h = cc h
  ParentMove-Held (printing none) (write w) h = cc h
  ParentMove-Held (printing none) close_write h = cc h
  ParentMove-Held leaving mv h = tt
  ParentMove-Held ended mv h = tt

  ParentMove-open :
      {c : Child} {s s' : K.State} {p p' : Parent}
      → ParentMove K c s p p' s'
      → pipe.writers s ≡ parent_open p + child_open c
      → pipe.writers s' ≡ parent_open p' + child_open c
  ParentMove-open {s} close_read e = omega (arith, e, pipe.writers-close_read s)
  ParentMove-open {s} (write w) e = omega (arith, e, pipe.writers-write message s)
  ParentMove-open {s} close_write e = omega (arith, e, pipe.writers-close_write s)

  ChildMove-open :
      (p : Parent) {c c' : Child} {s s' : K.State} {lines : List Text}
      → ChildMove K s c c' s' lines
      → pipe.writers s ≡ parent_open p + child_open c
      → pipe.writers s' ≡ parent_open p + child_open c'
  ChildMove-open p {s} close_own e = omega (arith, e, pipe.writers-close_write s)
  ChildMove-open p {s} (read_filled r) e = omega (arith, e, pipe.writers-read 100 s)
  ChildMove-open p {s} (read_empty r) e = omega (arith, e, pipe.writers-read 100 s)
  ChildMove-open p (show w) e = e
  ChildMove-open p (show_more w r) e = e
  ChildMove-open p (show_unset t) e = e
  ChildMove-open p {s} leave e = omega (arith, e, pipe.writers-close_read s)

  ChildMove-Held :
      (p : Parent) {c c' : Child} {s s' : K.State} {lines : List Text}
      → ChildMove K s c c' s' lines
      → pipe.writers s ≡ parent_open p + child_open c
      → Held p c s
      → Held p c' s'
  ChildMove-Held p {s} close_own e h = pipe.content-close_write s ∙ h
  ChildMove-Held p {s} (read_filled {t} r) e h =
      let (same, some_text) = pipe.content-filled 100 t s r (rw h (sent-le p)) in
      sent-filled p t (sym h ∙ same) some_text
  ChildMove-Held p {s} (read_empty r) e h =
      let (no_text, no_writer) = pipe.read-empty 100 s r in
      sent-empty p (sym h ∙ no_text) (omega (arith, e, no_writer))
  ChildMove-Held p (show w) e h = tt
  ChildMove-Held p (show_more w r) e h = tt
  ChildMove-Held p (show_unset t) e h = tt
  ChildMove-Held p leave e h = tt

  string_at : (t w : Text) → t ≡ message → c_string t ≡ some w → w ≡ write_msg
  string_at t w h e = cc (h, e, c_string-message)

  ChildMove-Printed :
      {c c' : Child} {s s' : K.State} {p : Parent} {lines : List Text}
      → ChildMove K s c c' s' lines
      → Held p c s
      → Printed p lines
  ChildMove-Printed (show {t} {w} e) h = inl (ap received (string_at t w h e), tt)
  ChildMove-Printed (show_more {t} e r) h = cc (e, c_string-message, h)
  ChildMove-Printed (show_unset t) h = inr h
  ChildMove-Printed close_own h = inl tt
  ChildMove-Printed (read_filled r) h = inl tt
  ChildMove-Printed (read_empty r) h = inl tt
  ChildMove-Printed leave h = inl tt

  abbrev pub InvAt : ℕ → Processes K → Type 0
  InvAt n t = Inv t.parent t.child t.shared t.shown

  Step-Inv : (n : ℕ) (t u : Processes K) → InvAt n t → StepOf K t u → InvAt (suc n) u
  Step-Inv n t u i (parent_moves mv) = record {
    open_ends = ParentMove-open mv i.open_ends;
    held = ParentMove-Held t.child mv i.held;
    printed = ParentMove-Printed t.shown mv i.printed;
  }
  Step-Inv n t u i (child_moves {lines} mv) = record {
    open_ends = ChildMove-open t.parent mv i.open_ends;
    held = ChildMove-Held t.parent mv i.open_ends i.held;
    printed = Printed-append t.parent t.shown lines i.printed (ChildMove-Printed mv i.held);
  }

  pub Reach-Inv :
      {s : K.State} {n : ℕ} {t : Processes K}
      → pipe.content s ≡ []
      → pipe.writers s ≡ 2
      → ReachedIn K s n t
      → Inv t.parent t.child t.shared t.shown
  Reach-Inv {s} {n} {t} no_text two r = Reach-keeps _ _ InvAt first Step-Inv n t r
    where
      first : InvAt 0 (at_fork K s)
      first = record { open_ends = two; held = no_text; printed = inl tt }
