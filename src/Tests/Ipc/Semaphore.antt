-- ===== src/Tests/Ipc/Semaphore.antt =====
-- A run of IPC/04_semaphore.c in which the child attaches the segment first.
use system_sw_gui_project.Prelude.{[], ◌∷◌, ◌≤◌, ◌≡◌, ◌⊎◌, refl, All}
use system_sw_gui_project.Run.{call, pure, ◌>>=◌}
use system_sw_gui_project.Ipc.Steps.{start, later, parent_moves, child_moves}
use system_sw_gui_project.Ipc.Semaphore.{
  detaching, leaving, write_msg, received, forked, initialised, with_semaphore, with_memory, main,
  Processes, StepOf, ReachedIn, attach, write, raise, join, lower, show,
}
use system_sw_gui_project.Ipc.Semaphore.Progress.{Settled}
use system_sw_gui_project.Ipc.Semaphore.Runs.{message_received, run_settles}
use system_sw_gui_project.Tests.Ipc.{kernel, memory, semaphore, before}

abbrev shown_early : Processes kernel
shown_early = record {
  parent = detaching;
  child = leaving;
  shared = record { text = write_msg; value = 0 };
  shown = received write_msg ∷ [];
}

run : ReachedIn kernel 3 4 (main kernel before).1 6 shown_early
unfolding main with_memory with_semaphore initialised forked ◌>>=◌ call pure
run =
    later
      (later
        (later
          (later (later (later start (child_moves (join refl))) (parent_moves (attach refl)))
            (parent_moves write))
          (parent_moves (raise refl)))
        (child_moves (lower refl)))
      (child_moves show)

message_received_example : All (λ line. line ≡ received write_msg) shown_early.shown
unfolding main with_memory with_semaphore initialised forked ◌>>=◌ call pure
message_received_example = message_received kernel 3 4 memory semaphore before refl run

run_settles_example :
    (6 ≤ 11)
    × (((u : Processes kernel) × StepOf kernel 3 4 shown_early u)
        ⊎ Settled shown_early.parent shown_early.child)
unfolding main with_memory with_semaphore initialised forked ◌>>=◌ call pure
run_settles_example = run_settles kernel 3 4 memory semaphore before refl run
