-- ===== src/Ipc/Semaphore/Runs.antt =====
-- Whole runs of IPC/04_semaphore.c, from the start of main on.
use system_sw_gui_project.Prelude.{
  ℕ, Bool, true, false, Option, none, some, ℤ, ◌≤◌, ◌≡◌, ◌⊎◌, refl, sym, subst, ◌∙◌, All, codes,
}
use system_sw_gui_project.Run.{done, call, ◌>>=◌, pure, exit}
use system_sw_gui_project.Ipc.Calls.{Calls, MemoryDocumented, SemaphoreDocumented}
use system_sw_gui_project.Ipc.Semaphore.{
  write_msg, received, forked, initialised, with_semaphore, with_memory, main, shm_size, Processes,
  StepOf, ReachedIn,
}
use system_sw_gui_project.Ipc.Semaphore.Invariant.{Reach-Inv}
use system_sw_gui_project.Ipc.Semaphore.Progress.{Settled, run_bounded, can_step_or_Settled}

module _ (C : Calls) (shmid semid : ℕ) (memory : MemoryDocumented C shmid)
    (semaphore : SemaphoreDocumented C shmid semid) where
  forked-value :
      (k m : ℕ) (b : Bool) (s : C.State)
      → (forked C k m b s).0 ≡ done (shmid, semid)
      → (m ≡ semid) × ((forked C k m b s).1 ≡ s)
  unfolding forked pure exit
  forked-value k m true s e = (cc e, refl)
  forked-value k m false s e = cc e

  initialised-value :
      (k m : ℕ) (b : Bool) (s : C.State)
      → (initialised C k m b s).0 ≡ done (shmid, semid)
      → (m ≡ semid) × (b ≡ true) × (semaphore.value (initialised C k m b s).1 ≡ semaphore.value s)
  unfolding initialised exit call ◌>>=◌
  initialised-value k m true s e =
      let (same, after) = forked-value k m (C.fork s).0 (C.fork s).1 e in
      (same, refl, rw after (semaphore.value-fork s))
  initialised-value k m false s e = cc e

  -- Where main goes on behind the fork, the semaphore is zero.
  with_semaphore-value :
      (k : ℕ) (o : Option ℕ) (s : C.State)
      → (with_semaphore C k o s).0 ≡ done (shmid, semid)
      → semaphore.value (with_semaphore C k o s).1 ≡ 0
  unfolding with_semaphore exit call ◌>>=◌
  with_semaphore-value k none s e = cc e
  with_semaphore-value k (some m) s e =
      let (same, ok, after) =
        initialised-value k m (C.semctl_setval m 0 s).0 (C.semctl_setval m 0 s).1 e in
      after
      ∙ subst
          (λ m. (C.semctl_setval m 0 s).0 ≡ true → semaphore.value (C.semctl_setval m 0 s).1 ≡ 0)
          (sym same) (semaphore.value-setval 0 s) ok

  with_memory-value :
      (key : ℤ) (o : Option ℕ) (s : C.State)
      → (with_memory C key o s).0 ≡ done (shmid, semid)
      → semaphore.value (with_memory C key o s).1 ≡ 0
  unfolding with_memory exit call ◌>>=◌
  with_memory-value key none s e = cc e
  with_memory-value key (some k) s e =
      with_semaphore-value k (C.semget key 1 s).0 (C.semget key 1 s).1 e

  main-value : (s : C.State) → (main C s).0 ≡ done (shmid, semid) → semaphore.value (main C s).1 ≡ 0
  unfolding main call ◌>>=◌
  main-value s e =
      let (key, s') = C.ftok (codes "shmfile") 65 s in
      with_memory-value key (C.shmget key shm_size s').0 (C.shmget key shm_size s').1 e

  -- Whatever the order of the steps and whichever calls fail: all that the child has printed is
  -- the message of the parent, where memory and semaphore behave as documented.
  pub message_received :
      (s : C.State) {n : ℕ} {t : Processes C}
      → (main C s).0 ≡ done (shmid, semid)
      → ReachedIn C shmid semid (main C s).1 n t
      → All (λ line. line ≡ received write_msg) t.shown
  message_received s e r = (Reach-Inv C shmid semid memory semaphore (main-value s e) r).printed

  -- Every run ends: at most eleven steps are taken behind the fork, and where none can be taken
  -- either both processes have ended, or the parent has failed and the child waits for the
  -- semaphore for ever.
  pub run_settles :
      (s : C.State) {n : ℕ} {t : Processes C}
      → (main C s).0 ≡ done (shmid, semid)
      → ReachedIn C shmid semid (main C s).1 n t
      → (n ≤ 11) × (((u : Processes C) × StepOf C shmid semid t u) ⊎ Settled t.parent t.child)
  run_settles s {t} e r = (
    run_bounded C shmid semid r,
    can_step_or_Settled C shmid semid memory semaphore t
        (Reach-Inv C shmid semid memory semaphore (main-value s e) r),
  )
