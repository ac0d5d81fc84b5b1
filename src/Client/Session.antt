-- ===== src/Client/Session.antt =====
-- The state that the callbacks share, and what they call: GTK, GLib and the message queues.
use system_sw_gui_project.Prelude.{ℕ, String, Bool, false, Option, Text}
use system_sw_gui_project.Run.{Op, Run, done}
use system_sw_gui_project.Backend.Calls.{Message}

-- The functions that g_timeout_add schedules.
pub data Timer : Type 0 where
  update_timer update_ui_timer favorites_timer read_timer : Timer

-- `log` is g_print, g_printerr, printf and perror, with the text of a line less its arguments.
-- `path_text`, `entry_text` and `dialog_path` are the texts of data->path_entry and of data->entry
-- and the dialog's "file_path". `msgget` takes the key and gives the queue; `msgrcv` is told not
-- to wait. `is_dir` is g_file_test; `show_directory` is gtk_directory_list_set_file.
pub record Desktop : Type 1 where
  pub State : Type 0
  pub log : String → Op State (Unit {0})
  pub close : Op State (Unit {0})
  pub path_text : Op State Text
  pub entry_text : Op State Text
  pub dialog_path : Op State Text
  pub ftok : Text → Op State (Option ℕ)
  pub msgget : ℕ → Op State (Option ℕ)
  pub msgsnd : ℕ → Message → Op State Bool
  pub msgrcv : ℕ → ℕ → Op State (Option Message)
  pub remove_queue : ℕ → Op State (Unit {0})
  pub usleep : ℕ → Op State (Unit {0})
  pub timeout_add : ℕ → Timer → Op State (Unit {0})
  pub is_dir : Text → Op State Bool
  pub set_directory : Option Text → Op State Bool
  pub build_filename : Text → Text → Text

-- The part of UserData that the callbacks keep, with the name in selected_file_info, and the
-- static variable of start_backend_check.
pub record UserData : Type 0 where
  pub selected_file_info : Option Text
  pub is_backend_done : Bool
  pub is_check_running : Bool

module _ (D : Desktop) where
  -- The callbacks' state and that of everything else.
  abbrev pub Session : Type 0
  Session = UserData × D.State

  abbrev pub outside : {A : Type 0} → Op D.State A → Run Session A
  outside op (u, s) = let (a, s') = op s in (done a, (u, s'))

  abbrev pub data_now : Run Session UserData
  data_now (u, s) = (done u, (u, s))

  abbrev pub change : (UserData → UserData) → Run Session (Unit {0})
  change f (u, s) = (done tt, (f u, s))

  abbrev pub say : String → Run Session (Unit {0})
  say text = outside (D.log text)

  -- data->is_backend_done = FALSE, which some callbacks write as NULL.
  abbrev pub not_done : Run Session (Unit {0})
  not_done = change (λ u. record u { is_backend_done = false })
