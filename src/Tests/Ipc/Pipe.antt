-- ===== src/Tests/Ipc/Pipe.antt =====
-- A run of IPC/01_pipe.c on one pipe that behaves as documented.
use system_sw_gui_project.Prelude.{
  ℕ, zero, suc, ◌-◌, ◌*◌, ◌≤◌, Bool, true, false, [], ◌∷◌, ◌++◌, ◌≡◌, ◌≢◌, ◌⊎◌, refl, Text, All,
  arith,
}
use system_sw_gui_project.Run.{Op, call, pure, ◌>>=◌}
use system_sw_gui_project.Ipc.Steps.{start, later, parent_moves, child_moves}
use system_sw_gui_project.Ipc.Pipe.{
  Reading, blocked, empty, filled, Pipes, PipeDocumented, write_msg, received, closing_write,
  returned, leaving, ended, forked, with_pipe, c_string, main, Processes, StepOf, ReachedIn,
  close_read, write, close_own, read_filled, show,
}
use system_sw_gui_project.Ipc.Pipe.Ends.{pipe_runs}

record Pipe : Type 0 where
  content : Text
  writers : ℕ

abbrev take : Text → ℕ → Reading × Text
take [] zero = (empty, [])
take [] (suc n) = (blocked, [])
take (c ∷ q) n = (filled (c ∷ q), [])

abbrev read : Op Pipe Reading
read s = let (r, q) = take s.content s.writers in (r, record s { content = q })

abbrev pipes : Pipes
pipes = record {
  State = Pipe;
  pipe = λ s. (true, record { content = []; writers = 1 });
  fork = λ s. (true, record s { writers = s.writers * 2 });
  close_read = λ s. s;
  close_write = λ s. record s { writers = s.writers - 1 };
  write = λ t s. (true, record s { content = s.content ++ t });
  read = λ n. read;
}

take-filled : (q : Text) (n : ℕ) (t : Text) → (take q n).0 ≡ filled t → (q ≡ t) × (t ≢ [])
take-filled [] zero t e = cc e
take-filled [] (suc n) t e = cc e
take-filled (c ∷ q) n t e = (cc e, λ z. cc (e, z))

take-empty : (q : Text) (n : ℕ) → (take q n).0 ≡ empty → (q ≡ []) × (n ≡ 0)
take-empty [] zero e = (refl, refl)
take-empty [] (suc n) e = cc e
take-empty (c ∷ q) n e = cc e

take-blocked : (q : Text) (n : ℕ) → (take q n).0 ≡ blocked → n ≢ 0
take-blocked [] zero e = λ z. cc e
take-blocked [] (suc n) e = λ z. omega (arith, z)
take-blocked (c ∷ q) n e = λ z. cc e

pipes-PipeDocumented : PipeDocumented pipes
pipes-PipeDocumented = record {
  content = λ s. s.content;
  writers = λ s. s.writers;
  content-pipe = λ s e. refl;
  writers-pipe = λ s e. refl;
  content-fork = λ s. refl;
  writers-fork = λ s e. refl;
  content-close_read = λ s. refl;
  writers-close_read = λ s. refl;
  content-close_write = λ s. refl;
  writers-close_write = λ s. refl;
  content-written = λ t s e. refl;
  content-refused = λ t s e. cc e;
  writers-write = λ t s. refl;
  content-filled = λ n t s e l. take-filled s.content s.writers t e;
  read-empty = λ n s e. take-empty s.content s.writers e;
  writers-read = λ n s. refl;
  read-blocked = λ n s e. take-blocked s.content s.writers e;
}

abbrev unused : Pipe
unused = record { content = []; writers = 0 }

-- The child has read before the parent closes its end.
abbrev shown_first : Processes pipes
shown_first = record {
  parent = closing_write true;
  child = leaving;
  shared = record { content = []; writers = 1 };
  shown = received write_msg ∷ [];
}

run : ReachedIn pipes (main pipes unused).1 5 shown_first
unfolding main with_pipe forked ◌>>=◌ call pure c_string
run =
    later
      (later
        (later (later (later start (child_moves close_own)) (parent_moves close_read))
          (parent_moves (write refl)))
        (child_moves (read_filled refl)))
      (child_moves (show refl))

pipe_runs_example :
    (All (λ line. line ≡ received write_msg) shown_first.shown
      ⊎ (shown_first.parent ≡ returned false))
    × ((5 ≤ 7)
        × (((u : Processes pipes) × StepOf pipes shown_first u)
            ⊎ ((shown_first.child ≡ ended) × ((ok : Bool) × (shown_first.parent ≡ returned ok)))))
unfolding main with_pipe forked ◌>>=◌ call pure
pipe_runs_example = pipe_runs pipes pipes-PipeDocumented unused refl run
