-- ===== src/Ipc/Semaphore.antt =====
-- IPC/04_semaphore.c: the parent writes a message into shared memory and raises a semaphore that
-- the child waits for before it reads.
pub mod Invariant
pub mod Progress
pub mod Runs
use system_sw_gui_project.Prelude.{
  ℕ, Bool, true, false, Option, none, some, ℤ, pos, negsuc, List, [], ◌∷◌, ◌++◌, ◌≡◌, Text, codes,
}
use system_sw_gui_project.Run.{Run, pure, exit, call, ◌>>=◌}
use system_sw_gui_project.Ipc.Calls.{Calls, blocked, refused, succeeded}
use system_sw_gui_project.Ipc.Steps.{System, Step, Reach}

abbrev pub write_msg : Text
write_msg = codes "Hello, child process!"

abbrev pub received : Text → Text
received str = codes "Child process received message : " ++ str ++ codes " \n"

abbrev pub shm_size : ℕ
shm_size = 1024

-- Where the parent is: before shmat, strcpy, semop, shmdt, wait, the two calls that remove, and
-- at its return or its exit.
pub data Parent : Type 0 where
  attaching writing raising detaching waiting : Parent
  removing_memory removing_semaphore returned failed : Parent

-- Where the child is: before shmat, semop, printf and shmdt, and at its return or its exit.
pub data Child : Type 0 where
  joining lowering printing leaving ended aborted : Child

-- wait returns.
abbrev pub has_ended : Child → Bool
has_ended ended = true
has_ended aborted = true
has_ended _ = false

module _ (C : Calls) where
  -- main up to the fork: the identifiers, with which both processes go on.
  unfoldable pub forked : ℕ → ℕ → Bool → Run C.State (ℕ × ℕ)
  forked shmid semid true = pure (shmid, semid)
  forked shmid semid false = exit 1

  unfoldable pub initialised : ℕ → ℕ → Bool → Run C.State (ℕ × ℕ)
  unfolding forked
  initialised shmid semid true = call C.fork >>= forked shmid semid
  initialised shmid semid false = exit 1

  unfoldable pub with_semaphore : ℕ → Option ℕ → Run C.State (ℕ × ℕ)
  unfolding initialised
  with_semaphore shmid (some semid) = call (C.semctl_setval semid 0) >>= initialised shmid semid
  with_semaphore shmid none = exit 1

  unfoldable pub with_memory : ℤ → Option ℕ → Run C.State (ℕ × ℕ)
  unfolding with_semaphore
  with_memory key (some shmid) = call (C.semget key 1) >>= with_semaphore shmid
  with_memory key none = exit 1

  unfoldable pub main : Run C.State (ℕ × ℕ)
  unfolding with_memory
  main = do
    key ← call (C.ftok (codes "shmfile") 65)
    shmid ← call (C.shmget key shm_size)
    with_memory key shmid

  -- Both processes behind the fork, and what they reach from there.
  abbrev pub Processes : Type 0
  Processes = System C.State Parent Child

  abbrev pub at_fork : C.State → Processes
  at_fork s = record { parent = attaching; child = joining; shared = s; shown = [] }

  module _ (shmid semid : ℕ) where
    pub data ParentMove (c : Child) (s : C.State) : Parent → Parent → C.State → Type 0 where
      attach : (C.shmat shmid s).0 ≡ true → ParentMove c s attaching writing (C.shmat shmid s).1
      attach_fails :
          (C.shmat shmid s).0 ≡ false → ParentMove c s attaching failed (C.shmat shmid s).1
      write : ParentMove c s writing raising (C.strcpy shmid write_msg s)
      raise :
          (C.semop semid (pos 1) s).0 ≡ succeeded
          → ParentMove c s raising detaching (C.semop semid (pos 1) s).1
      raise_fails :
          (C.semop semid (pos 1) s).0 ≡ refused
          → ParentMove c s raising failed (C.semop semid (pos 1) s).1
      detach : ParentMove c s detaching waiting (C.shmdt shmid s)
      reap : has_ended c ≡ true → ParentMove c s waiting removing_memory s
      remove_memory : ParentMove c s removing_memory removing_semaphore (C.shmctl_rmid shmid s)
      remove_semaphore : ParentMove c s removing_semaphore returned (C.semctl_rmid semid s)

    pub data ChildMove (s : C.State) : Child → Child → C.State → List Text → Type 0 where
      join : (C.shmat shmid s).0 ≡ true → ChildMove s joining lowering (C.shmat shmid s).1 []
      join_fails : (C.shmat shmid s).0 ≡ false → ChildMove s joining aborted (C.shmat shmid s).1 []
      lower :
          (C.semop semid (negsuc 0) s).0 ≡ succeeded
          → ChildMove s lowering printing (C.semop semid (negsuc 0) s).1 []
      lower_fails :
          (C.semop semid (negsuc 0) s).0 ≡ refused
          → ChildMove s lowering aborted (C.semop semid (negsuc 0) s).1 []
      show : ChildMove s printing leaving s (received (C.text_at shmid s) ∷ [])
      leave : ChildMove s leaving ended (C.shmdt shmid s) []

    abbrev pub StepOf : Processes → Processes → Type 0
    StepOf = Step ParentMove ChildMove

    abbrev pub ReachedIn : C.State → ℕ → Processes → Type 0
    ReachedIn s = Reach ParentMove ChildMove (at_fork s)
