-- ===== src/Ipc/Pipe/Ends.antt =====
-- Whole runs of IPC/01_pipe.c, from the start of main on.
use system_sw_gui_project.Prelude.{
  ℕ, suc, Bool, true, false, none, some, List, [], ◌+◌, ◌≤◌, ◌≡◌, ◌≢◌, ◌⊎◌, Option-cases, inl, inr,
  refl, ◌∙◌, Text, All, arith,
}
use system_sw_gui_project.Run.{done, call, ◌>>=◌, pure, exit}
use system_sw_gui_project.Ipc.Steps.{parent_moves, child_moves, Reach-keeps}
use system_sw_gui_project.Ipc.Pipe.{
  Reading, blocked, empty, filled, Pipes, PipeDocumented, write_msg, c_string, received, Parent,
  closing_read, writing, closing_write, returned, Child, starting, reading, printing, leaving,
  ended, forked, with_pipe, main, ParentMove, close_read, write, close_write, ChildMove, close_own,
  read_filled, read_empty, show, show_more, show_unset, leave, Processes, StepOf, ReachedIn,
}
use system_sw_gui_project.Ipc.Pipe.Invariant.{Inv, Reach-Inv}

-- How many steps a process can still take.
abbrev parent_left : Parent → ℕ
parent_left closing_read = 3
parent_left writing = 2
parent_left (closing_write ok) = 1
parent_left (returned ok) = 0

abbrev child_left : Child → ℕ
child_left starting = 4
child_left reading = 3
child_left (printing t) = 2
child_left leaving = 1
child_left ended = 0

Reading-cases : (r : Reading) → (r ≡ blocked) ⊎ (r ≡ empty) ⊎ ((t : Text) × (r ≡ filled t))
Reading-cases blocked = inl refl
Reading-cases empty = inr (inl refl)
Reading-cases (filled t) = inr (inr (t, refl))

module _ (K : Pipes) where
  ParentMove-left :
      {c : Child} {s s' : K.State} {p p' : Parent}
      → ParentMove K c s p p' s'
      → suc (parent_left p') ≤ parent_left p
  ParentMove-left close_read = omega arith
  ParentMove-left (write w) = omega arith
  ParentMove-left close_write = omega arith

  ChildMove-left :
      {c c' : Child} {s s' : K.State} {lines : List Text}
      → ChildMove K s c c' s' lines
      → suc (child_left c') ≤ child_left c
  ChildMove-left close_own = omega arith
  ChildMove-left (read_filled r) = omega arith
  ChildMove-left (read_empty r) = omega arith
  ChildMove-left (show w) = omega arith
  ChildMove-left (show_more w r) = omega arith
  ChildMove-left (show_unset t) = omega arith
  ChildMove-left leave = omega arith

  abbrev InTime : ℕ → Processes K → Type 0
  InTime n t = n + (parent_left t.parent + child_left t.child) ≤ 7

  Step-InTime : (n : ℕ) (t u : Processes K) → InTime n t → StepOf K t u → InTime (suc n) u
  Step-InTime n t u h (parent_moves mv) = omega (arith, h, ParentMove-left mv)
  Step-InTime n t u h (child_moves mv) = omega (arith, h, ChildMove-left mv)

  Reach-bounded : {s : K.State} {n : ℕ} {t : Processes K} → ReachedIn K s n t → n ≤ 7
  Reach-bounded {n} {t} r = omega (arith, Reach-keeps _ _ InTime (omega arith) Step-InTime n t r)

module _ (K : Pipes) (pipe : PipeDocumented K) where
  abbrev Ready : K.State → Type 0
  Ready s = (pipe.content s ≡ []) × (pipe.writers s ≡ 2)

  forked-Ready :
      (b : Bool) (s : K.State) → (forked K b s).0 ≡ done tt → (b ≡ true) × ((forked K b s).1 ≡ s)
  unfolding forked pure exit
  forked-Ready true s e = (refl, refl)
  forked-Ready false s e = cc e

  with_pipe-Ready :
      (b : Bool) (s : K.State)
      → (b ≡ true → (pipe.content s ≡ []) × (pipe.writers s ≡ 1))
      → (with_pipe K b s).0 ≡ done tt
      → Ready (with_pipe K b s).1
  unfolding with_pipe exit call ◌>>=◌
  with_pipe-Ready true s h e =
      let (ok, same) = forked-Ready (K.fork s).0 (K.fork s).1 e in
      let (no_text, one) = h refl in
      (
        rw same (pipe.content-fork s ∙ no_text),
        rw same (omega (arith, pipe.writers-fork s ok, one)),
      )
  with_pipe-Ready false s h e = cc e

  main-Ready : (s : K.State) → (main K s).0 ≡ done tt → Ready (main K s).1
  unfolding main call ◌>>=◌
  main-Ready s e =
      with_pipe-Ready (K.pipe s).0 (K.pipe s).1
        (λ ok. (pipe.content-pipe s ok, pipe.writers-pipe s ok)) e

  main-Inv :
      (s : K.State) {n : ℕ} {t : Processes K}
      → (main K s).0 ≡ done tt
      → ReachedIn K (main K s).1 n t
      → Inv K pipe t.parent t.child t.shared t.shown
  main-Inv s e r = let (no_text, two) = main-Ready s e in Reach-Inv K pipe no_text two r

  abbrev ParentRests : Parent → Type 0
  ParentRests (returned ok) = Unit
  ParentRests p = ⊥

  abbrev ChildRests : Child → K.State → Type 0
  ChildRests reading s = pipe.writers s ≢ 0
  ChildRests ended s = Unit
  ChildRests c s = ⊥

  parent_can :
      (p : Parent) (c : Child) (s : K.State)
      → ((p' : Parent) × (s' : K.State) × ParentMove K c s p p' s') ⊎ ParentRests p
  parent_can closing_read c s = inl (_, _, close_read)
  parent_can writing c s = inl (_, _, write refl)
  parent_can (closing_write ok) c s = inl (_, _, close_write)
  parent_can (returned ok) c s = inr tt

  child_can :
      (c : Child) (s : K.State)
      → ((c' : Child) × (s' : K.State) × (lines : List Text) × ChildMove K s c c' s' lines)
        ⊎ ChildRests c s
  child_can starting s = inl (_, _, _, close_own)
  child_can reading s = elim (Reading-cases (K.read 100 s).0) [
    | inl e ↦ inr (pipe.read-blocked 100 s e)
    | inr (inl e) ↦ inl (_, _, _, read_empty e)
    | inr (inr (t, e)) ↦ inl (_, _, _, read_filled e)
  ]
  child_can (printing (some t)) s = elim (Option-cases (c_string t)) [
    | inl e ↦ inl (_, _, _, show_more e [])
    | inr (w, e) ↦ inl (_, _, _, show e)
  ]
  child_can (printing none) s = inl (_, _, _, show_unset [])
  child_can leaving s = inl (_, _, _, leave)
  child_can ended s = inr tt

  -- The parent closes its end when it has written, the child before it reads.
  reading-ended :
      (p : Parent) (c : Child) (s : K.State) {shown : List Text}
      → Inv K pipe p c s shown
      → ParentRests p
      → ChildRests c s
      → (c ≡ ended) × ((ok : Bool) × (p ≡ returned ok))
  reading-ended (returned ok) ended s i e z = (refl, (ok, refl))
  reading-ended (returned ok) reading s i e z = absurd (z i.open_ends)
  reading-ended (returned ok) starting s i e z = absurd z
  reading-ended (returned ok) (printing t) s i e z = absurd z
  reading-ended (returned ok) leaving s i e z = absurd z
  reading-ended closing_read c s i e z = absurd e
  reading-ended writing c s i e z = absurd e
  reading-ended (closing_write ok) c s i e z = absurd e

  pipe_received :
      (s : K.State) {n : ℕ} {t : Processes K}
      → (main K s).0 ≡ done tt
      → ReachedIn K (main K s).1 n t
      → All (λ line. line ≡ received write_msg) t.shown ⊎ (t.parent ≡ returned false)
  pipe_received s e r = (main-Inv s e r).printed

  pipe_ends :
      (s : K.State) {n : ℕ} {t : Processes K}
      → (main K s).0 ≡ done tt
      → ReachedIn K (main K s).1 n t
      → (n ≤ 7)
        × (((u : Processes K) × StepOf K t u)
            ⊎ ((t.child ≡ ended) × ((ok : Bool) × (t.parent ≡ returned ok))))
  pipe_ends s {t} e r = (
    Reach-bounded K r,
    elim (parent_can t.parent t.child t.shared) [
      | inl (p, s, mv) ↦ inl (_, parent_moves mv)
      | inr p ↦ elim (child_can t.child t.shared) [
        | inl (c, s, lines, mv) ↦ inl (_, child_moves mv)
        | inr z ↦ inr (reading-ended t.parent t.child t.shared (main-Inv s e r) p z)
      ]
    ],
  )

  -- Whatever the order of the steps, where a pipe behaves as documented and read without errors:
  -- all that the child has printed is the message of the parent, unless write has failed; and
  -- every run ends, since at most seven steps are taken behind the fork, and where none can be
  -- taken both processes have ended.
  pub pipe_runs :
      (s : K.State) {n : ℕ} {t : Processes K}
      → (main K s).0 ≡ done tt
      → ReachedIn K (main K s).1 n t
      → (All (λ line. line ≡ received write_msg) t.shown ⊎ (t.parent ≡ returned false))
        × ((n ≤ 7)
            × (((u : Processes K) × StepOf K t u)
                ⊎ ((t.child ≡ ended) × ((ok : Bool) × (t.parent ≡ returned ok)))))
  pipe_runs s e r = (pipe_received s e r, pipe_ends s e r)
