-- ===== src/Client/Toolkit.antt =====
-- What dir_manage_gtk/main.c calls to start the backend and to set up the window.
use system_sw_gui_project.Prelude.{ℕ, String, Bool, Option, List, Text}
use system_sw_gui_project.Run.{Op}
use system_sw_gui_project.Client.Session.{Desktop}

-- The objects whose signals are connected.
pub data Emitter : Type 0 where
  app favorites_list click_gesture single_sel load_button upper_button columnview : Emitter

-- The callbacks they are connected to; the first three are app_startup, app_activate and
-- on_application_shutdown.
pub data Callback : Type 0 where
  startup activate shutdown : Callback
  on_favorites_row_activated on_button_pressed on_selection_changed : Callback
  update_directory upper_directory on_columnview_activate : Callback

-- The callbacks of actions.
pub data Action : Type 0 where
  on_new_directory_action on_rename_action on_delete_action on_move_action : Action
  on_copy_action on_chmod_action on_add_to_favorites_action : Action

-- `make_directory` says whether it has succeeded and whether it has set an error. `add_gesture`
-- makes the gesture for the secondary button and adds it to the view; `list_model` and
-- `column_model` say whether there is a model. `run` is g_application_run with the status it
-- returns. What the builder finds by name, and references, are left out.
pub record Toolkit (D : Desktop) : Type 0 where
  pub fork : Op D.State (Option ℕ)
  pub execl : Text → List Text → Op D.State Bool
  pub query_exists : Text → Op D.State Bool
  pub make_directory : Text → Op D.State (Bool × Bool)
  pub connect : Emitter → String → Callback → Op D.State (Unit {0})
  pub add_actions : List (String × Action) → Op D.State (Unit {0})
  pub add_gesture : Op D.State (Unit {0})
  pub list_model : Op D.State Bool
  pub column_model : Op D.State Bool
  pub set_application : Op D.State (Unit {0})
  pub present : Op D.State (Unit {0})
  pub run : Op D.State ℕ
