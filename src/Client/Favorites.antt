-- ===== src/Client/Favorites.antt =====
-- The list of favorites of ui_link.c: the links in /tmp/link.
pub mod Rows
use system_sw_gui_project.Prelude.{
  ℕ, zero, suc, Bool, Option, none, some, List, [], ◌∷◌, Text, codes,
}
use system_sw_gui_project.Run.{Run, starve, ◌>>=◌, ◌>>◌, skip}
use system_sw_gui_project.Client.Session.{Desktop, Session, outside}
use system_sw_gui_project.Client.Send.{update}
use system_sw_gui_project.Client.Widgets.{Widgets}

abbrev pub link_dir : Text
link_dir = codes "/tmp/link"

-- sizeof(target_path) - 1
abbrev pub target_max : ℕ
target_max = 4095

module _ (D : Desktop) (W : Widgets D) where
  unfoldable pub add_row : Text → Option Text → Run (Session D) (Unit {0})
  add_row name none = skip
  add_row name (some target_path) = outside D (W.append_row name target_path)

  unfoldable pub add_rows : List Text → Run (Session D) (Unit {0})
  unfolding add_row
  add_rows [] = outside D W.dir_close
  add_rows (name ∷ names) = do
    target ← outside D (W.readlink (D.build_filename link_dir name) target_max)
    add_row name target
    add_rows names

  unfoldable pub list_links : Option (List Text) → Run (Session D) (Unit {0})
  unfolding add_rows
  list_links none = skip
  list_links (some names) = add_rows names

  -- The loop that removes the rows, for at most `fuel` calls of gtk_widget_get_first_child.
  unfoldable pub remove_children : ℕ → Run (Session D) (Unit {0})
  remove_children zero = starve
  remove_children (suc fuel) = do
    child ← outside D W.first_child
    elim child [ none ↦ skip | some row ↦ outside D (W.list_remove row) >> remove_children fuel ]

  -- The names are those that g_dir_read_name gives one after the other.
  unfoldable pub update_favorites_list : ℕ → Run (Session D) (Unit {0})
  unfolding list_links remove_children
  update_favorites_list fuel = do
    remove_children fuel
    names ← outside D (W.dir_open link_dir)
    list_links names

  -- With the "target-path" of the row, if there is a row and it has one.
  unfoldable pub on_favorites_row_activated : Option Text → Run (Session D) (Unit {0})
  on_favorites_row_activated none = skip
  on_favorites_row_activated (some target_path) = do
    outside D (W.set_path_text (W.path_get_dirname target_path))
    update D
