-- ===== src/Ipc/Semaphore/Progress.antt =====
-- How runs of IPC/04_semaphore.c end, whatever the order of the steps.
use system_sw_gui_project.Prelude.{
  ℕ, suc, true, false, List, ◌+◌, ◌≤◌, ◌≡◌, ◌⊎◌, inl, inr, refl, Text, arith, pos, negsuc,
  Bool-cases,
}
use system_sw_gui_project.Ipc.Calls.{
  Calls, Semop, blocked, refused, succeeded, MemoryDocumented, SemaphoreDocumented,
}
use system_sw_gui_project.Ipc.Steps.{parent_moves, child_moves, Reach-keeps}
use system_sw_gui_project.Ipc.Semaphore.{
  Parent, attaching, writing, raising, detaching, waiting, removing_memory, removing_semaphore,
  returned, failed, Child, joining, lowering, printing, leaving, ended, aborted, has_ended,
  ParentMove, attach, attach_fails, write, raise, raise_fails, detach, reap, remove_memory,
  remove_semaphore, ChildMove, join, join_fails, lower, lower_fails, show, leave, Processes, StepOf,
  ReachedIn,
}
use system_sw_gui_project.Ipc.Semaphore.Invariant.{Inv}

-- How many steps a process can still take.
abbrev pub parent_left : Parent → ℕ
parent_left attaching = 7
parent_left writing = 6
parent_left raising = 5
parent_left detaching = 4
parent_left waiting = 3
parent_left removing_memory = 2
parent_left removing_semaphore = 1
parent_left _ = 0

abbrev pub child_left : Child → ℕ
child_left joining = 4
child_left lowering = 3
child_left printing = 2
child_left leaving = 1
child_left _ = 0

module _ (C : Calls) (shmid semid : ℕ) where
  ParentMove-left :
      {c : Child} {s s' : C.State} {p p' : Parent}
      → ParentMove C shmid semid c s p p' s'
      → suc (parent_left p') ≤ parent_left p
  ParentMove-left (attach _) = omega arith
  ParentMove-left (attach_fails _) = omega arith
  ParentMove-left write = omega arith
  ParentMove-left (raise _) = omega arith
  ParentMove-left (raise_fails _) = omega arith
  ParentMove-left detach = omega arith
  ParentMove-left (reap _) = omega arith
  ParentMove-left remove_memory = omega arith
  ParentMove-left remove_semaphore = omega arith

  ChildMove-left :
      {c c' : Child} {s s' : C.State} {lines : List Text}
      → ChildMove C shmid semid s c c' s' lines
      → suc (child_left c') ≤ child_left c
  ChildMove-left (join _) = omega arith
  ChildMove-left (join_fails _) = omega arith
  ChildMove-left (lower _) = omega arith
  ChildMove-left (lower_fails _) = omega arith
  ChildMove-left show = omega arith
  ChildMove-left leave = omega arith

  abbrev pub InTime : ℕ → Processes C → Type 0
  InTime n t = n + (parent_left t.parent + child_left t.child) ≤ 11

  Step-InTime :
      (n : ℕ) (t u : Processes C) → InTime n t → StepOf C shmid semid t u → InTime (suc n) u
  Step-InTime n t u h (parent_moves mv) = omega (arith, h, ParentMove-left mv)
  Step-InTime n t u h (child_moves mv) = omega (arith, h, ChildMove-left mv)

  pub run_bounded : {s : C.State} {n : ℕ} {t : Processes C} → ReachedIn C shmid semid s n t → n ≤ 11
  run_bounded {s} {n} {t} r = omega (arith, Reach-keeps _ _ InTime (omega arith) Step-InTime n t r)

-- Where a process cannot move, or both cannot.
abbrev pub ParentRests : Parent → Child → Type 0
ParentRests waiting c = has_ended c ≡ false
ParentRests returned c = Unit
ParentRests failed c = Unit
ParentRests _ c = ⊥

abbrev pub Settled : Parent → Child → Type 0
Settled returned c = has_ended c ≡ true
Settled failed lowering = Unit
Settled failed c = has_ended c ≡ true
Settled _ c = ⊥

Semop-cases : (r : Semop) → (r ≡ blocked) ⊎ (r ≡ refused) ⊎ (r ≡ succeeded)
Semop-cases blocked = inl refl
Semop-cases refused = inr (inl refl)
Semop-cases succeeded = inr (inr refl)

module _ (C : Calls) (shmid semid : ℕ) (memory : MemoryDocumented C shmid)
    (semaphore : SemaphoreDocumented C shmid semid) where
  abbrev pub ChildRests : Child → C.State → Type 0
  ChildRests lowering s = semaphore.value s ≡ 0
  ChildRests ended s = Unit
  ChildRests aborted s = Unit
  ChildRests _ s = ⊥

  abbrev ParentCan : Parent → Child → C.State → Type 0
  ParentCan p c s = (p' : Parent) × (s' : C.State) × ParentMove C shmid semid c s p p' s'

  abbrev ChildCan : Child → C.State → Type 0
  ChildCan c s =
      (c' : Child) × (s' : C.State) × (lines : List Text) × ChildMove C shmid semid s c c' s' lines

  parent_can : (p : Parent) (c : Child) (s : C.State) → ParentCan p c s ⊎ ParentRests p c
  parent_can attaching c s = elim (Bool-cases (C.shmat shmid s).0) [
    | inl e ↦ inl (_, _, attach e)
    | inr e ↦ inl (_, _, attach_fails e)
  ]
  parent_can writing c s = inl (_, _, write)
  parent_can raising c s = elim (Semop-cases (C.semop semid (pos 1) s).0) [
    | inl e ↦ absurd (semaphore.raise-blocked s e)
    | inr (inl e) ↦ inl (_, _, raise_fails e)
    | inr (inr e) ↦ inl (_, _, raise e)
  ]
  parent_can detaching c s = inl (_, _, detach)
  parent_can waiting c s = elim (Bool-cases (has_ended c)) [
    | inl e ↦ inl (_, _, reap e)
    | inr e ↦ inr e
  ]
  parent_can removing_memory c s = inl (_, _, remove_memory)
  parent_can removing_semaphore c s = inl (_, _, remove_semaphore)
  parent_can returned c s = inr tt
  parent_can failed c s = inr tt

  child_can : (c : Child) (s : C.State) → ChildCan c s ⊎ ChildRests c s
  child_can joining s = elim (Bool-cases (C.shmat shmid s).0) [
    | inl e ↦ inl (_, _, _, join e)
    | inr e ↦ inl (_, _, _, join_fails e)
  ]
  child_can lowering s = elim (Semop-cases (C.semop semid (negsuc 0) s).0) [
    | inl e ↦ inr (semaphore.lower-blocked s e)
    | inr (inl e) ↦ inl (_, _, _, lower_fails e)
    | inr (inr e) ↦ inl (_, _, _, lower e)
  ]
  child_can printing s = inl (_, _, _, show)
  child_can leaving s = inl (_, _, _, leave)
  child_can ended s = inr tt
  child_can aborted s = inr tt

  settled :
      (p : Parent) (c : Child) (s : C.State) {shown : List Text}
      → Inv C shmid semid memory semaphore p c s shown
      → ParentRests p c
      → ChildRests c s
      → Settled p c
  settled waiting lowering s i e z = absurd (omega (arith, i.counted refl, z))
  settled waiting ended s i e z = cc e
  settled waiting aborted s i e z = cc e
  settled returned c s i e z = i.removed refl
  settled failed lowering s i e z = tt
  settled failed ended s i e z = refl
  settled failed aborted s i e z = refl
  settled attaching c s i e z = absurd e
  settled writing c s i e z = absurd e
  settled raising c s i e z = absurd e
  settled detaching c s i e z = absurd e
  settled removing_memory c s i e z = absurd e
  settled removing_semaphore c s i e z = absurd e
  settled waiting joining s i e z = absurd z
  settled waiting printing s i e z = absurd z
  settled waiting leaving s i e z = absurd z
  settled failed joining s i e z = absurd z
  settled failed printing s i e z = absurd z
  settled failed leaving s i e z = absurd z

  pub can_step_or_Settled :
      (t : Processes C)
      → Inv C shmid semid memory semaphore t.parent t.child t.shared t.shown
      → ((u : Processes C) × StepOf C shmid semid t u) ⊎ Settled t.parent t.child
  can_step_or_Settled t i = elim (parent_can t.parent t.child t.shared) [
    | inl (p, s, mv) ↦ inl (_, parent_moves mv)
    | inr e ↦ elim (child_can t.child t.shared) [
      | inl (c, s, lines, mv) ↦ inl (_, child_moves mv)
      | inr z ↦ inr (settled t.parent t.child t.shared i e z)
    ]
  ]
