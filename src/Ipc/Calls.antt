-- ===== src/Ipc/Calls.antt =====
-- The calls of IPC/04_semaphore.c, as parameters, and what their documentation says.
use system_sw_gui_project.Prelude.{
  ℕ, suc, ◌+◌, ◌<◌, Bool, true, Option, ℤ, pos, negsuc, ◌≡◌, ◌≢◌, Text, length,
}
use system_sw_gui_project.Run.{Op}

-- What semop does: it blocks the process, fails, or succeeds.
pub data Semop : Type 0 where
  blocked refused succeeded : Semop

-- A segment that is attached is written and read by its identifier, since both processes see the
-- same bytes at the addresses that shmat gives them.
pub record Calls : Type 1 where
  pub State : Type 0
  pub ftok : Text → ℕ → Op State ℤ
  pub shmget : ℤ → ℕ → Op State (Option ℕ)
  pub semget : ℤ → ℕ → Op State (Option ℕ)
  pub semctl_setval : ℕ → ℕ → Op State Bool
  pub fork : Op State Bool
  pub shmat : ℕ → Op State Bool
  pub strcpy : ℕ → Text → State → State
  pub text_at : ℕ → State → Text
  pub semop : ℕ → ℤ → Op State Semop
  pub shmdt : ℕ → State → State
  pub shmctl_rmid : ℕ → State → State
  pub semctl_rmid : ℕ → State → State

-- A text that fits the segment can be read by whoever has it attached, and other calls leave it
-- alone.
pub record MemoryDocumented (C : Calls) (shmid : ℕ) : Type 0 where
  pub text-strcpy :
      (t : Text) (s : C.State) → length t < 1024 → C.text_at shmid (C.strcpy shmid t s) ≡ t
  pub text-shmat : (s : C.State) → C.text_at shmid (C.shmat shmid s).1 ≡ C.text_at shmid s
  pub text-shmdt : (s : C.State) → C.text_at shmid (C.shmdt shmid s) ≡ C.text_at shmid s

-- The value of a semaphore: semop with -1 needs it to be positive and blocks if it is zero, with 1
-- it never blocks, and a semop that fails and the calls on memory leave it alone.
pub record SemaphoreDocumented (C : Calls) (shmid semid : ℕ) : Type 0 where
  pub value : C.State → ℕ
  pub value-setval :
      (n : ℕ) (s : C.State)
      → (C.semctl_setval semid n s).0 ≡ true
      → value (C.semctl_setval semid n s).1 ≡ n
  pub value-fork : (s : C.State) → value (C.fork s).1 ≡ value s
  pub value-shmat : (s : C.State) → value (C.shmat shmid s).1 ≡ value s
  pub value-strcpy : (t : Text) (s : C.State) → value (C.strcpy shmid t s) ≡ value s
  pub value-shmdt : (s : C.State) → value (C.shmdt shmid s) ≡ value s
  pub value-shmctl : (s : C.State) → value (C.shmctl_rmid shmid s) ≡ value s
  pub value-raised :
      (s : C.State)
      → (C.semop semid (pos 1) s).0 ≡ succeeded
      → value (C.semop semid (pos 1) s).1 ≡ value s + 1
  pub raise-blocked : (s : C.State) → (C.semop semid (pos 1) s).0 ≢ blocked
  pub value-lowered :
      (s : C.State)
      → (C.semop semid (negsuc 0) s).0 ≡ succeeded
      → suc (value (C.semop semid (negsuc 0) s).1) ≡ value s
  pub value-refused :
      (n : ℤ) (s : C.State)
      → (C.semop semid n s).0 ≡ refused
      → value (C.semop semid n s).1 ≡ value s
  pub lower-blocked : (s : C.State) → (C.semop semid (negsuc 0) s).0 ≡ blocked → value s ≡ 0
  pub text-semop : (n : ℤ) (s : C.State) → C.text_at shmid (C.semop semid n s).1 ≡ C.text_at shmid s
