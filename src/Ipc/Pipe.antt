-- ===== src/Ipc/Pipe.antt =====
-- IPC/01_pipe.c: the parent writes a message into a pipe that the child reads. Neither looks at
-- what write and read return.
pub mod Invariant
pub mod Ends
use mathlib.Core.Option
use system_sw_gui_project.Prelude.{
  ℕ, ◌-◌, ◌*◌, ◌≤◌, ◌==◌, if◌then◌else◌, length, Bool, true, false, Option, none, some, List, [],
  ◌∷◌, ◌++◌, ◌≡◌, ◌≢◌, Text, codes,
}
use system_sw_gui_project.Run.{Op, Run, pure, exit, call, ◌>>=◌}
use system_sw_gui_project.Ipc.Steps.{System, Step, Reach}

-- What read does: it blocks the process, fills nothing since it fails or the pipe has ended, or
-- fills the buffer with a text.
pub data Reading : Type 0 where
  blocked empty : Reading
  filled : Text → Reading

-- close_read and close_write close an end of the pipe in the process that calls.
pub record Pipes : Type 1 where
  pub State : Type 0
  pub pipe : Op State Bool
  pub fork : Op State Bool
  pub close_read : State → State
  pub close_write : State → State
  pub write : Text → Op State Bool
  pub read : ℕ → Op State Reading

-- The bytes in the pipe and the number of processes that have its write end open, which fork
-- doubles: read takes all bytes if they fit, blocks only if a write end is open, and fills nothing
-- only if there are no bytes and no write end is open, so an error of read is left out.
pub record PipeDocumented (K : Pipes) : Type 0 where
  pub content : K.State → Text
  pub writers : K.State → ℕ
  pub content-pipe : (s : K.State) → (K.pipe s).0 ≡ true → content (K.pipe s).1 ≡ []
  pub writers-pipe : (s : K.State) → (K.pipe s).0 ≡ true → writers (K.pipe s).1 ≡ 1
  pub content-fork : (s : K.State) → content (K.fork s).1 ≡ content s
  pub writers-fork : (s : K.State) → (K.fork s).0 ≡ true → writers (K.fork s).1 ≡ writers s * 2
  pub content-close_read : (s : K.State) → content (K.close_read s) ≡ content s
  pub writers-close_read : (s : K.State) → writers (K.close_read s) ≡ writers s
  pub content-close_write : (s : K.State) → content (K.close_write s) ≡ content s
  pub writers-close_write : (s : K.State) → writers (K.close_write s) ≡ writers s - 1
  pub content-written :
      (t : Text) (s : K.State) → (K.write t s).0 ≡ true → content (K.write t s).1 ≡ content s ++ t
  pub content-refused :
      (t : Text) (s : K.State) → (K.write t s).0 ≡ false → content (K.write t s).1 ≡ content s
  pub writers-write : (t : Text) (s : K.State) → writers (K.write t s).1 ≡ writers s
  pub content-filled :
      (n : ℕ) (t : Text) (s : K.State)
      → (K.read n s).0 ≡ filled t
      → length (content s) ≤ n
      → (content s ≡ t) × (t ≢ [])
  pub read-empty :
      (n : ℕ) (s : K.State) → (K.read n s).0 ≡ empty → (content s ≡ []) × (writers s ≡ 0)
  pub writers-read : (n : ℕ) (s : K.State) → writers (K.read n s).1 ≡ writers s
  pub read-blocked : (n : ℕ) (s : K.State) → (K.read n s).0 ≡ blocked → writers s ≢ 0

abbrev pub write_msg : Text
write_msg = codes "Hello, child process!"

-- The bytes that write gets: the message with its terminating zero.
abbrev pub message : Text
message = write_msg ++ 0 ∷ []

-- The C string at the front of a buffer, if a zero ends it.
unfoldable pub c_string : Text → Option Text
c_string [] = none
c_string (c ∷ s) = if c == 0 then some [] else Option.map (λ w. c ∷ w) (c_string s)

abbrev pub received : Text → Text
received read_msg = codes "Child process received message: " ++ read_msg ++ codes "\n"

-- Where the parent is: before its two calls of close and the write between them, where the flag
-- says whether write has succeeded, and at its end.
pub data Parent : Type 0 where
  closing_read writing : Parent
  closing_write returned : Bool → Parent

-- Where the child is: before its calls, with what read has put into the buffer, and at its end.
pub data Child : Type 0 where
  starting reading : Child
  printing : Option Text → Child
  leaving ended : Child

module _ (K : Pipes) where
  -- main up to the fork.
  unfoldable pub forked : Bool → Run K.State (Unit {0})
  forked true = pure tt
  forked false = exit 1

  unfoldable pub with_pipe : Bool → Run K.State (Unit {0})
  unfolding forked
  with_pipe true = call K.fork >>= forked
  with_pipe false = exit 1

  unfoldable pub main : Run K.State (Unit {0})
  unfolding with_pipe
  main = call K.pipe >>= with_pipe

  pub data ParentMove (c : Child) (s : K.State) : Parent → Parent → K.State → Type 0 where
    close_read : ParentMove c s closing_read writing (K.close_read s)
    write :
        {ok : Bool}
        → (K.write message s).0 ≡ ok
        → ParentMove c s writing (closing_write ok) (K.write message s).1
    close_write : {ok : Bool} → ParentMove c s (closing_write ok) (returned ok) (K.close_write s)

  -- The bytes that read has not filled were never set: any text may be printed for them.
  pub data ChildMove (s : K.State) : Child → Child → K.State → List Text → Type 0 where
    close_own : ChildMove s starting reading (K.close_write s) []
    read_filled :
        {t : Text}
        → (K.read 100 s).0 ≡ filled t
        → ChildMove s reading (printing (some t)) (K.read 100 s).1 []
    read_empty : (K.read 100 s).0 ≡ empty → ChildMove s reading (printing none) (K.read 100 s).1 []
    show :
        {t w : Text}
        → c_string t ≡ some w
        → ChildMove s (printing (some t)) leaving s (received w ∷ [])
    show_more :
        {t : Text}
        → c_string t ≡ none
        → (r : Text) → ChildMove s (printing (some t)) leaving s (received (t ++ r) ∷ [])
    show_unset : (t : Text) → ChildMove s (printing none) leaving s (received t ∷ [])
    leave : ChildMove s leaving ended (K.close_read s) []

  abbrev pub Processes : Type 0
  Processes = System K.State Parent Child

  abbrev pub at_fork : K.State → Processes
  at_fork s = record { parent = closing_read; child = starting; shared = s; shown = [] }

  abbrev pub StepOf : Processes → Processes → Type 0
  StepOf = Step ParentMove ChildMove

  abbrev pub ReachedIn : K.State → ℕ → Processes → Type 0
  ReachedIn s = Reach ParentMove ChildMove (at_fork s)
