-- ===== src/Client/Startup/Shows.antt =====
-- What the window shows when main.c has set it up.
use system_sw_gui_project.Prelude.{ℕ, some, ◌≡◌, Text, codes, if◌then◌else◌}
use system_sw_gui_project.Run.{Op, Run}
use system_sw_gui_project.Run.Does.{Does}
use system_sw_gui_project.Client.Session.{Desktop, Session}
use system_sw_gui_project.Client.Widgets.{Widgets}
use system_sw_gui_project.Client.Toolkit.{Toolkit}
use system_sw_gui_project.Client.Startup.{start_path}
use system_sw_gui_project.Client.Startup.View.{View, Still, ViewDocumented, FewRows}

module _ (D : Desktop) where
  -- The run returns.
  abbrev Ends : Run (Session D) (Unit {0}) → Type 0
  Ends m = Does (λ w. Unit {0}) m (λ a w. Unit {0})

module _ (D : Desktop) (v : View D.State) where
  -- /tmp/test if it exists, the current directory otherwise.
  abbrev pub path_at : D.State → Text
  path_at s = if v.there s then start_path else codes "."

  -- The entry and the list are at this path.
  abbrev pub AtStart : D.State → Type 0
  AtStart s = (v.entry s ≡ path_at s) × (v.shown s ≡ some (path_at s))

  abbrev Shown : Session D → Type 0
  Shown w = AtStart w.1

  abbrev Chosen : Text → Session D → Type 0
  Chosen path w = path ≡ path_at w.1

  abbrev Kept : Text → Session D → Type 0
  Kept path w = Shown w × Chosen path w

module _ (D : Desktop) (W : Widgets D) (T : Toolkit D) (v : View D.State)
    (d : ViewDocumented D W T v) (fuel : ℕ) (f : FewRows D W fuel) where
  abbrev Still-op : {A : Type 0} → Op D.State A → Type 0
  Still-op op = (s : D.State) → Still v s (op s).1

  -- An end of the run that keeps what is shown.
  abbrev KeepsShown : Text → Run (Session D) (Unit {0}) → Type 0
  KeepsShown path m = Does (Kept D v path) m (λ a. Kept D v path)
