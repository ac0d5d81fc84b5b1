-- ===== src/Tests/Startup.antt =====
-- The start of a window where /tmp/test cannot be made.
use system_sw_gui_project.Prelude.{
  Bool, true, false, none, some, Option, [], ◌∷◌, ◌≡◌, ◌++◌, refl, Text, codes,
}
use system_sw_gui_project.Run.{◌>>=◌}
use system_sw_gui_project.Client.Session.{Desktop, UserData}
use system_sw_gui_project.Client.Widgets.{Widgets}
use system_sw_gui_project.Client.Toolkit.{Toolkit}
use system_sw_gui_project.Client.Startup.{app_startup}
use system_sw_gui_project.Client.Startup.View.{View}

pub record Screen : Type 0 where
  pub entry : Text
  pub shown : Option Text
  pub there : Bool

abbrev shown_or : Option Text → Screen → Screen
shown_or none s = s
shown_or (some p) s = record s { shown = some p }

abbrev desktop : Desktop
desktop = record {
  State = Screen;
  log = λ t s. (tt, s);
  close = λ s. (tt, s);
  path_text = λ s. (s.entry, s);
  entry_text = λ s. ([], s);
  dialog_path = λ s. ([], s);
  ftok = λ p s. (some 1, s);
  msgget = λ k s. (some 1, s);
  msgsnd = λ q m s. (true, s);
  msgrcv = λ q t s. (none, s);
  remove_queue = λ q s. (tt, s);
  usleep = λ n s. (tt, s);
  timeout_add = λ n t s. (tt, s);
  is_dir = λ p s. (true, s);
  set_directory = λ p s. (true, shown_or p s);
  build_filename = λ p name. p ++ b'/' ∷ name;
}

abbrev widgets : Widgets desktop
widgets = record {
  new_dialog = λ t s. (tt, s);
  new_label = λ t s. (tt, s);
  new_entry = λ t s. (tt, s);
  show = λ s. (tt, s);
  keep_path = λ p s. (tt, s);
  stat_mode = λ p s. (none, s);
  popup = λ items x y s. (tt, s);
  first_child = λ s. (none, s);
  list_remove = λ row s. (tt, s);
  dir_open = λ p s. (some (codes "a" ∷ []), s);
  dir_close = λ s. (tt, s);
  readlink = λ p n s. (none, s);
  append_row = λ name t s. (tt, s);
  path_get_dirname = λ p. p;
  set_path_text = λ p s. (tt, record s { entry = p });
}

abbrev toolkit : Toolkit desktop
toolkit = record {
  fork = λ s. (some 2, s);
  execl = λ p argv s. (true, s);
  query_exists = λ p s. (s.there, s);
  make_directory = λ p s. ((false, true), record s { there = false });
  connect = λ e t c s. (tt, s);
  add_actions = λ xs s. (tt, s);
  add_gesture = λ s. (tt, s);
  list_model = λ s. (true, s);
  column_model = λ s. (true, s);
  set_application = λ s. (tt, s);
  present = λ s. (tt, s);
  run = λ s. (0, s);
}

abbrev view : View Screen
view = record { entry = λ s. s.entry; shown = λ s. s.shown; there = λ s. s.there }

abbrev user_data : UserData
user_data = record { selected_file_info = none; is_backend_done = false; is_check_running = false }

abbrev blank : Screen
blank = record { entry = []; shown = none; there = false }

blank_run : (app_startup desktop widgets toolkit 1 (user_data, blank)).1.1.entry ≡ codes "."
unfolding app_startup ◌>>=◌
blank_run = refl
