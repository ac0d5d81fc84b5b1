-- ===== src/Ipc/Semaphore/Invariant.antt =====
-- What the child of IPC/04_semaphore.c reads, whatever the order of the steps.
use system_sw_gui_project.Prelude.{
  ℕ, suc, Bool, true, false, List, [], ◌++◌, ◌+◌, ◌≡◌, refl, ap, ◌∙◌, Text, arith, ◌≤◌, pos, negsuc,
  All, All-append,
}
use system_sw_gui_project.Ipc.Calls.{Calls, MemoryDocumented, SemaphoreDocumented}
use system_sw_gui_project.Ipc.Steps.{parent_moves, child_moves, Reach-keeps}
use system_sw_gui_project.Ipc.Semaphore.{
  write_msg, received, Parent, attaching, writing, raising, detaching, waiting, removing_memory,
  removing_semaphore, returned, failed, Child, printing, leaving, has_ended, ParentMove, attach,
  attach_fails, write, raise, raise_fails, detach, reap, remove_memory, remove_semaphore, ChildMove,
  join, join_fails, lower, lower_fails, show, leave, Processes, at_fork, StepOf, ReachedIn,
}

-- The message is in the segment; the semaphore was raised.
abbrev pub has_written : Parent → Bool
has_written attaching = false
has_written writing = false
has_written failed = false
has_written _ = true

abbrev pub raised : Parent → ℕ
raised detaching = 1
raised waiting = 1
raised removing_memory = 1
raised removing_semaphore = 1
raised returned = 1
raised _ = 0

abbrev pub lowered : Child → ℕ
lowered printing = 1
lowered leaving = 1
lowered _ = 0

abbrev pub is_removing : Parent → Bool
is_removing removing_memory = true
is_removing removing_semaphore = true
is_removing returned = true
is_removing _ = false

module _ (C : Calls) (shmid semid : ℕ) (memory : MemoryDocumented C shmid)
    (semaphore : SemaphoreDocumented C shmid semid) where
  pub record Inv (p : Parent) (c : Child) (s : C.State) (shown : List Text) : Type 0 where
    pub counted : has_ended c ≡ false → semaphore.value s + lowered c ≡ raised p
    pub written : has_ended c ≡ false → has_written p ≡ true → C.text_at shmid s ≡ write_msg
    pub removed : is_removing p ≡ true → has_ended c ≡ true
    pub printed : All (λ t. t ≡ received write_msg) shown

  ParentMove-counted :
      {p p' : Parent} {c : Child} {s s' : C.State} {shown : List Text}
      → ParentMove C shmid semid c s p p' s'
      → Inv p c s shown
      → has_ended c ≡ false
      → semaphore.value s' + lowered c ≡ raised p'
  ParentMove-counted {s} (attach e) i a = omega (arith, i.counted a, semaphore.value-shmat s)
  ParentMove-counted {s} (attach_fails e) i a = omega (arith, i.counted a, semaphore.value-shmat s)
  ParentMove-counted {s} write i a = omega (arith, i.counted a, semaphore.value-strcpy write_msg s)
  ParentMove-counted {s} (raise e) i a = omega (arith, i.counted a, semaphore.value-raised s e)
  ParentMove-counted {s} (raise_fails e) i a =
      omega (arith, i.counted a, semaphore.value-refused (pos 1) s e)
  ParentMove-counted {s} detach i a = omega (arith, i.counted a, semaphore.value-shmdt s)
  ParentMove-counted (reap e) i a = i.counted a
  ParentMove-counted {s} remove_memory i a = omega (arith, i.counted a, semaphore.value-shmctl s)
  ParentMove-counted remove_semaphore i a = cc (i.removed refl, a)

  ParentMove-written :
      {p p' : Parent} {c : Child} {s s' : C.State} {shown : List Text}
      → ParentMove C shmid semid c s p p' s'
      → Inv p c s shown
      → has_ended c ≡ false
      → has_written p' ≡ true
      → C.text_at shmid s' ≡ write_msg
  ParentMove-written (attach e) i a w = cc w
  ParentMove-written (attach_fails e) i a w = cc w
  ParentMove-written {s} write i a w = memory.text-strcpy write_msg s (omega arith)
  ParentMove-written {s} (raise e) i a w = semaphore.text-semop (pos 1) s ∙ i.written a refl
  ParentMove-written (raise_fails e) i a w = cc w
  ParentMove-written {s} detach i a w = memory.text-shmdt s ∙ i.written a refl
  ParentMove-written (reap e) i a w = i.written a refl
  ParentMove-written remove_memory i a w = cc (i.removed refl, a)
  ParentMove-written remove_semaphore i a w = cc (i.removed refl, a)

  ParentMove-removed :
      {p p' : Parent} {c : Child} {s s' : C.State} {shown : List Text}
      → ParentMove C shmid semid c s p p' s'
      → Inv p c s shown
      → is_removing p' ≡ true
      → has_ended c ≡ true
  ParentMove-removed (reap e) i r = e
  ParentMove-removed remove_memory i r = i.removed refl
  ParentMove-removed remove_semaphore i r = i.removed refl
  ParentMove-removed (attach e) i r = cc r
  ParentMove-removed (attach_fails e) i r = cc r
  ParentMove-removed write i r = cc r
  ParentMove-removed (raise e) i r = cc r
  ParentMove-removed (raise_fails e) i r = cc r
  ParentMove-removed detach i r = cc r

  ParentMove-Inv :
      {p p' : Parent} {c : Child} {s s' : C.State} {shown : List Text}
      → ParentMove C shmid semid c s p p' s'
      → Inv p c s shown
      → Inv p' c s' shown
  ParentMove-Inv mv i = record {
    counted = ParentMove-counted mv i;
    written = ParentMove-written mv i;
    removed = ParentMove-removed mv i;
    printed = i.printed;
  }

  -- A raised semaphore was raised by a parent that had written.
  raised-has_written : (p : Parent) → raised p ≡ 1 → has_written p ≡ true
  raised-has_written attaching e = absurd (omega (arith, e))
  raised-has_written writing e = absurd (omega (arith, e))
  raised-has_written failed e = absurd (omega (arith, e))
  raised-has_written raising e = refl
  raised-has_written detaching e = refl
  raised-has_written waiting e = refl
  raised-has_written removing_memory e = refl
  raised-has_written removing_semaphore e = refl
  raised-has_written returned e = refl

  raised-le : (p : Parent) → raised p ≤ 1
  raised-le p = ground arith

  -- What the child prints is the message.
  Inv-printing :
      {p : Parent} {s : C.State} {shown : List Text}
      → Inv p printing s shown
      → C.text_at shmid s ≡ write_msg
  Inv-printing {p} i =
      i.written refl (raised-has_written p (omega (arith, i.counted refl, raised-le p)))

  ChildMove-Inv :
      {p : Parent} {c c' : Child} {s s' : C.State} {shown lines : List Text}
      → ChildMove C shmid semid s c c' s' lines
      → Inv p c s shown
      → Inv p c' s' (shown ++ lines)
  ChildMove-Inv {s} {shown} (join e) i = record {
    counted = λ a. omega (arith, i.counted refl, semaphore.value-shmat s);
    written = λ a w. memory.text-shmat s ∙ i.written refl w;
    removed = λ r. cc (i.removed r);
    printed = All-append _ shown [] i.printed tt;
  }
  ChildMove-Inv {shown} (join_fails e) i = record {
    counted = λ a. cc a;
    written = λ a. cc a;
    removed = λ r. refl;
    printed = All-append _ shown [] i.printed tt;
  }
  ChildMove-Inv {s} {shown} (lower e) i = record {
    counted = λ a. omega (arith, i.counted refl, semaphore.value-lowered s e);
    written = λ a w. semaphore.text-semop (negsuc 0) s ∙ i.written refl w;
    removed = λ r. cc (i.removed r);
    printed = All-append _ shown [] i.printed tt;
  }
  ChildMove-Inv {shown} (lower_fails e) i = record {
    counted = λ a. cc a;
    written = λ a. cc a;
    removed = λ r. refl;
    printed = All-append _ shown [] i.printed tt;
  }
  ChildMove-Inv {s} {shown} show i = record {
    counted = λ a. i.counted refl;
    written = λ a w. i.written refl w;
    removed = λ r. cc (i.removed r);
    printed = All-append _ shown _ i.printed (ap received (Inv-printing i), tt);
  }
  ChildMove-Inv {s} {shown} leave i = record {
    counted = λ a. cc a;
    written = λ a. cc a;
    removed = λ r. refl;
    printed = All-append _ shown [] i.printed tt;
  }

  abbrev pub InvAt : ℕ → Processes C → Type 0
  InvAt n t = Inv t.parent t.child t.shared t.shown

  Step-Inv : (n : ℕ) (t u : Processes C) → InvAt n t → StepOf C shmid semid t u → InvAt (suc n) u
  Step-Inv n t u i (parent_moves mv) = ParentMove-Inv mv i
  Step-Inv n t u i (child_moves mv) = ChildMove-Inv mv i

  pub Reach-Inv :
      {s : C.State} {n : ℕ} {t : Processes C}
      → semaphore.value s ≡ 0
      → ReachedIn C shmid semid s n t
      → Inv t.parent t.child t.shared t.shown
  Reach-Inv {s} {n} {t} z r = Reach-keeps _ _ InvAt first Step-Inv n t r
    where
      first : InvAt 0 (at_fork C s)
      first = record {
        counted = λ a. omega (arith, z);
        written = λ a w. cc w;
        removed = λ r. cc r;
        printed = tt;
      }
