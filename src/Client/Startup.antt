-- ===== src/Client/Startup.antt =====
-- dir_manage_gtk/main.c: the start of the backend and of the window.
pub mod View
pub mod Shows
use system_sw_gui_project.Prelude.{
  ℕ, zero, suc, String, Bool, true, false, Option, none, some, List, [], ◌∷◌, Text, codes,
  if◌then◌else◌,
}
use system_sw_gui_project.Run.{Run, pure, exit, ◌>>=◌, ◌>>◌, skip, when}
use system_sw_gui_project.Client.Session.{Desktop, Session, outside, change, say}
use system_sw_gui_project.Client.Widgets.{Widgets}
use system_sw_gui_project.Client.Favorites.{update_favorites_list}
use system_sw_gui_project.Client.Toolkit.{
  Emitter, app, favorites_list, click_gesture, single_sel, load_button, upper_button, columnview,
  startup, activate, shutdown, on_favorites_row_activated, on_button_pressed, on_selection_changed,
  update_directory, upper_directory, on_columnview_activate, Action, on_new_directory_action,
  on_rename_action, on_delete_action, on_move_action, on_copy_action, on_chmod_action,
  on_add_to_favorites_action, Toolkit,
}

abbrev pub app_actions : List (String × Action)
app_actions =
    ("new_directory", on_new_directory_action)
    ∷ ("rename", on_rename_action)
    ∷ ("delete", on_delete_action)
    ∷ ("move", on_move_action)
    ∷ ("copy", on_copy_action)
    ∷ ("chmod", on_chmod_action)
    ∷ ("add_favorite", on_add_to_favorites_action)
    ∷ []

abbrev pub start_path : Text
start_path = codes "/tmp/test"

module _ (D : Desktop) (W : Widgets D) (T : Toolkit D) where
  -- What follows fork in both processes: `none` is -1, zero is the child. An execl that succeeds
  -- ends this program in the child.
  unfoldable pub backend_forked : Option ℕ → Run (Session D) (Unit {0})
  backend_forked (some zero) = do
    success ← outside D (T.execl (codes "./_build/a.out") (codes "_build/a.out" ∷ []))
    if success then exit 0 else exit 1
  backend_forked _ = skip

  unfoldable pub start_backend : Run (Session D) (Unit {0})
  unfolding backend_forked
  start_backend = do backend_pid ← outside D T.fork; backend_forked backend_pid

  unfoldable pub app_activate : Run (Session D) (Unit {0})
  app_activate = outside D T.present

  -- The path to start at, from whether /tmp/test exists, and what making it gives.
  unfoldable pub made_or : Bool × Bool → Run (Session D) Text
  made_or (true, error) = pure start_path
  made_or (false, error) = do
    when error (say D "Error creating directory %s: %s\n")
    pure (codes ".")

  unfoldable pub start_at : Bool → Run (Session D) Text
  unfolding made_or
  start_at true = pure start_path
  start_at false = do result ← outside D (T.make_directory start_path); made_or result

  -- What is connected once there are models.
  unfoldable pub connect_all : Text → Run (Session D) (Unit {0})
  connect_all path = do
    outside D (T.connect single_sel "selection-changed" on_selection_changed)
    outside D (W.set_path_text path)
    outside D (T.connect load_button "clicked" update_directory)
    outside D (T.connect upper_button "clicked" upper_directory)
    outside D (T.connect columnview "activate" on_columnview_activate)
    outside D T.set_application

  unfoldable pub with_column : Text → Bool → Run (Session D) (Unit {0})
  unfolding connect_all
  with_column path true = connect_all path
  with_column path false = say D "Error: Could not create single selection model\n"

  unfoldable pub with_list : Text → Bool → Run (Session D) (Unit {0})
  unfolding with_column
  with_list path true = do model ← outside D T.column_model; with_column path model
  with_list path false = say D "Error: Could not find 'columnview' in column.ui\n"

  -- From the first call with the path on.
  unfoldable pub show_start : Text → Run (Session D) (Unit {0})
  unfolding with_list
  show_start path = do
    outside D (W.set_path_text path)
    outside D (D.set_directory (some path))
    outside D (T.add_actions app_actions)
    outside D T.add_gesture
    outside D (T.connect click_gesture "pressed" on_button_pressed)
    model ← outside D T.list_model
    with_list path model

  -- `fuel` is for the loops that remove the rows of the list of favorites.
  unfoldable pub app_startup : ℕ → Run (Session D) (Unit {0})
  unfolding update_favorites_list start_at show_start
  app_startup fuel = do
    change D (λ u. record u { selected_file_info = none; is_backend_done = false })
    update_favorites_list D W fuel
    outside D (T.connect favorites_list "row-activated" on_favorites_row_activated)
    update_favorites_list D W fuel
    exists ← outside D (T.query_exists start_path)
    path ← start_at exists
    show_start path

  unfoldable pub main : Run (Session D) ℕ
  unfolding start_backend
  main = do
    start_backend
    outside D (T.connect app "startup" startup)
    outside D (T.connect app "activate" activate)
    outside D (T.connect app "shutdown" shutdown)
    outside D T.run
