-- ===== src/Client/Startup/View.antt =====
-- What main.c's calls do to what the window shows, as they are documented.
use system_sw_gui_project.Prelude.{ℕ, ◌<◌, Bool, Option, some, List, ◌≡◌, String, Text}
use system_sw_gui_project.Client.Session.{Desktop}
use system_sw_gui_project.Client.Widgets.{Widgets}
use system_sw_gui_project.Client.Toolkit.{Emitter, Callback, Action, Toolkit}
use system_sw_gui_project.Client.Startup.{start_path}

-- `entry` is the text of path_entry, `shown` the path of the directory that the list shows and
-- `there` whether /tmp/test exists.
pub record View (S : Type 0) : Type 0 where
  pub entry : S → Text
  pub shown : S → Option Text
  pub there : S → Bool

-- The three are as they were.
pub record Still {S : Type 0} (v : View S) (s s' : S) : Type 0 where
  pub entry-same : v.entry s' ≡ v.entry s
  pub shown-same : v.shown s' ≡ v.shown s
  pub there-same : v.there s' ≡ v.there s

-- Two calls set the entry and the list, and only make_directory makes /tmp/test: no other program
-- makes or removes it in the meantime.
pub record ViewDocumented (D : Desktop) (W : Widgets D) (T : Toolkit D) (v : View D.State)
    : Type 0 where
  pub log : (t : String) (s : D.State) → Still v s (D.log t s).1
  pub query_exists :
      (s : D.State) → (T.query_exists start_path s).0 ≡ v.there (T.query_exists start_path s).1
  pub make_directory :
      (s : D.State)
      → (T.make_directory start_path s).0.0 ≡ v.there (T.make_directory start_path s).1
  pub connect :
      (e : Emitter) (t : String) (c : Callback) (s : D.State) → Still v s (T.connect e t c s).1
  pub add_actions : (xs : List (String × Action)) (s : D.State) → Still v s (T.add_actions xs s).1
  pub add_gesture : (s : D.State) → Still v s (T.add_gesture s).1
  pub list_model : (s : D.State) → Still v s (T.list_model s).1
  pub column_model : (s : D.State) → Still v s (T.column_model s).1
  pub set_application : (s : D.State) → Still v s (T.set_application s).1
  pub set_path_text :
      (p : Text) (s : D.State)
      → (v.entry (W.set_path_text p s).1 ≡ p)
        × (v.shown (W.set_path_text p s).1 ≡ v.shown s)
        × (v.there (W.set_path_text p s).1 ≡ v.there s)
  pub set_directory :
      (p : Text) (s : D.State)
      → (v.shown (D.set_directory (some p) s).1 ≡ some p)
        × (v.entry (D.set_directory (some p) s).1 ≡ v.entry s)
        × (v.there (D.set_directory (some p) s).1 ≡ v.there s)

-- The list of favorites never has `fuel` rows, and one less after its first row is removed.
pub record FewRows (D : Desktop) (W : Widgets D) (fuel : ℕ) : Type 0 where
  pub rows : D.State → ℕ
  pub few : (s : D.State) → rows s < fuel
  pub removed :
      (row : ℕ) (s : D.State)
      → (W.first_child s).0 ≡ some row
      → rows (W.list_remove row (W.first_child s).1).1 < rows s
