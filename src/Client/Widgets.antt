-- ===== src/Client/Widgets.antt =====
-- The calls of GTK and GLib behind dialogs, the menu and the list of favorites, beside those of
-- Desktop.
use system_sw_gui_project.Prelude.{ℕ, String, Option, List, ℤ, Text}
use system_sw_gui_project.Run.{Op}
use system_sw_gui_project.Client.Session.{Desktop}

-- `new_dialog` makes a dialog with its title, `new_label` a line of text in it, `new_entry` an
-- entry with its text, which data->entry points to; `show` shows the dialog and connects its
-- response, `keep_path` attaches the text "file_path". `popup` shows a menu with its actions.
-- `first_child` gives the first row of the list of favorites, if it has one; `append_row` adds a
-- row with its name and its "target-path".
pub record Widgets (D : Desktop) : Type 0 where
  pub new_dialog : String → Op D.State (Unit {0})
  pub new_label : String → Op D.State (Unit {0})
  pub new_entry : Text → Op D.State (Unit {0})
  pub show : Op D.State (Unit {0})
  pub keep_path : Text → Op D.State (Unit {0})
  pub stat_mode : Text → Op D.State (Option ℕ)
  pub popup : List String → ℤ → ℤ → Op D.State (Unit {0})
  pub first_child : Op D.State (Option ℕ)
  pub list_remove : ℕ → Op D.State (Unit {0})
  pub dir_open : Text → Op D.State (Option (List Text))
  pub dir_close : Op D.State (Unit {0})
  pub readlink : Text → ℕ → Op D.State (Option Text)
  pub append_row : Text → Text → Op D.State (Unit {0})
  pub path_get_dirname : Text → Text
  pub set_path_text : Text → Op D.State (Unit {0})
