-- ===== src/Tests/Client.antt =====
-- Requests with concrete paths, and a window whose ftok fails.
use system_sw_gui_project.Prelude.{◌≡◌, refl, true, false, none, some, [], codes, arith}
use system_sw_gui_project.Run.{crashed, skip}
use system_sw_gui_project.Backend.Requests.{handle}
use system_sw_gui_project.Client.Session.{Desktop, UserData}
use system_sw_gui_project.Client.Send.{joined, request}
use system_sw_gui_project.Client.Callbacks.{on_delete_response}
use system_sw_gui_project.Client.Requests.{IsPart, empty_mode_ignored, on_delete_response_crashed}
use system_sw_gui_project.Tests.Backend.{disk}

a-IsPart : IsPart (codes "/a")
a-IsPart = ((λ e. cc), (refl, (refl, tt)))

empty_mode_ignored_example : handle disk 8 6 2 (request 7 (joined (codes "/a") [])) ≡ skip
empty_mode_ignored_example = empty_mode_ignored disk 8 6 2 (codes "/a") a-IsPart (omega arith)

abbrev keyless : Desktop
keyless = record {
  State = Unit;
  log = λ t s. (tt, s);
  close = λ s. (tt, s);
  path_text = λ s. (codes "/tmp", s);
  entry_text = λ s. (codes "b", s);
  dialog_path = λ s. (codes "/tmp/a", s);
  ftok = λ p s. (none, s);
  msgget = λ k s. (some 1, s);
  msgsnd = λ q m s. (true, s);
  msgrcv = λ q t s. (none, s);
  remove_queue = λ q s. (tt, s);
  usleep = λ n s. (tt, s);
  timeout_add = λ n t s. (tt, s);
  is_dir = λ p s. (true, s);
  set_directory = λ p s. (true, s);
  build_filename = joined;
}

abbrev chosen : UserData
chosen = record {
  selected_file_info = some (codes "a");
  is_backend_done = false;
  is_check_running = false;
}

on_delete_response_crashed_example : (on_delete_response keyless true (chosen, tt)).0 ≡ crashed
on_delete_response_crashed_example =
    on_delete_response_crashed keyless (λ p s. refl) chosen tt (codes "a") refl
