-- ===== src/Client/Selection.antt =====
-- The selected row and the menu that a click with the secondary button opens, of ui_manage.c.
use system_sw_gui_project.Prelude.{
  ℕ, ◌-◌, ◌^◌, String, Bool, Option, none, some, List, [], ◌∷◌, ◌++◌, ◌==◌, ℤ, Text, if◌then◌else◌,
}
use system_sw_gui_project.Run.{Run, ◌>>=◌, ◌>>◌, skip, when}
use system_sw_gui_project.Client.Session.{Desktop, Session, outside, data_now, change, say}
use system_sw_gui_project.Client.Widgets.{Widgets}

-- GTK_INVALID_LIST_POSITION, the largest guint
abbrev pub invalid_list_position : ℕ
invalid_list_position = 2 ^ 32 - 1

-- The actions on a selected file.
abbrev pub file_actions : List String
file_actions =
    "app.rename" ∷ "app.delete" ∷ "app.move" ∷ "app.copy" ∷ "app.chmod" ∷ "app.add_favorite" ∷ []

unfoldable pub menu : Option Text → List String
menu (some name) = file_actions ++ "app.new_directory" ∷ []
menu none = "app.new_directory" ∷ []

module _ (D : Desktop) (W : Widgets D) where
  unfoldable pub show_popup_menu : ℤ → ℤ → Run (Session D) (Unit {0})
  unfolding menu
  show_popup_menu x y = do
    say D "Showing popup menu at (%f, %f)\n"
    u ← data_now D
    outside D (W.popup (menu u.selected_file_info) x y)

  -- `secondary` says whether the button is GDK_BUTTON_SECONDARY.
  unfoldable pub on_button_pressed : ℕ → Bool → ℤ → ℤ → Run (Session D) (Unit {0})
  unfolding show_popup_menu
  on_button_pressed n_press secondary x y =
      when (n_press == 1) (when secondary (show_popup_menu x y))

  -- `item` gives the name at a position of the list, `selected` the first selected position, as
  -- gtk_bitset_get_nth returns it.
  unfoldable pub on_selection_changed : (ℕ → Option Text) → ℕ → Run (Session D) (Unit {0})
  on_selection_changed item selected = do
    change D (λ u. record u { selected_file_info = none })
    if selected == invalid_list_position
        then skip
        else change D (λ u. record u { selected_file_info = item selected })
