-- ===== src/Tests/Ipc.antt =====
-- One segment and one semaphore that behave as documented, for runs of IPC/.
mod Semaphore
mod MessageQueue
mod Pipe
use system_sw_gui_project.Prelude.{
  ℕ, zero, suc, Bool, true, false, Option, none, some, ℤ, pos, negsuc, List, [], ◌∷◌, ◌++◌, ◌+◌,
  ◌≤◌, ◌≡◌, ◌⊎◌, inl, inr, refl, Text, All, arith, codes,
}
use system_sw_gui_project.Run.{Op, done, ◌>>=◌, call, pure}
use system_sw_gui_project.Ipc.Calls.{
  Calls, Semop, blocked, refused, succeeded, MemoryDocumented, SemaphoreDocumented,
}

-- The text in the segment and the value of the semaphore.
pub record Shared : Type 0 where
  pub text : Text
  pub value : ℕ

abbrev pub semop : ℤ → ℕ → Semop × ℕ
semop (pos n) v = (succeeded, v + n)
semop (negsuc zero) zero = (blocked, zero)
semop (negsuc zero) (suc v) = (succeeded, v)
semop (negsuc (suc n)) v = (refused, v)

abbrev pub semop_shared : ℕ → ℤ → Op Shared Semop
semop_shared semid n s = let (r, v) = semop n s.value in (r, record s { value = v })

abbrev pub kernel : Calls
kernel = record {
  State = Shared;
  ftok = λ path n s. (pos n, s);
  shmget = λ key size s. (some 3, s);
  semget = λ key n s. (some 4, s);
  semctl_setval = λ semid n s. (true, record s { value = n });
  fork = λ s. (true, s);
  shmat = λ shmid s. (true, s);
  strcpy = λ shmid t s. record s { text = t };
  text_at = λ shmid s. s.text;
  semop = semop_shared;
  shmdt = λ shmid s. s;
  shmctl_rmid = λ shmid s. s;
  semctl_rmid = λ semid s. s;
}

abbrev pub memory : MemoryDocumented kernel 3
memory = record { text-strcpy = λ t s h. refl; text-shmat = λ s. refl; text-shmdt = λ s. refl }

semop-lowered : (v : ℕ) → (semop (negsuc 0) v).0 ≡ succeeded → suc (semop (negsuc 0) v).1 ≡ v
semop-lowered zero e = cc e
semop-lowered (suc v) e = refl

semop-blocked : (v : ℕ) → (semop (negsuc 0) v).0 ≡ blocked → v ≡ 0
semop-blocked zero e = refl
semop-blocked (suc v) e = cc e

semop-refused : (n : ℤ) (v : ℕ) → (semop n v).0 ≡ refused → (semop n v).1 ≡ v
semop-refused (pos n) v e = cc e
semop-refused (negsuc zero) zero e = refl
semop-refused (negsuc zero) (suc v) e = cc e
semop-refused (negsuc (suc n)) v e = refl

pub semaphore : SemaphoreDocumented kernel 3 4
semaphore = record {
  value = λ s. s.value;
  value-setval = λ n s e. refl;
  value-fork = λ s. refl;
  value-shmat = λ s. refl;
  value-strcpy = λ t s. refl;
  value-shmdt = λ s. refl;
  value-shmctl = λ s. refl;
  value-raised = λ s e. refl;
  raise-blocked = λ s e. cc e;
  value-lowered = λ s e. semop-lowered s.value e;
  value-refused = λ n s e. semop-refused n s.value e;
  lower-blocked = λ s e. semop-blocked s.value e;
  text-semop = λ n s. refl;
}

-- A segment with a text of an earlier run, and a semaphore that it has left raised.
abbrev pub before : Shared
before = record { text = codes "old"; value = 1 }
