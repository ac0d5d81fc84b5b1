-- ===== src/Tests/Dialogs.antt =====
-- Dialogs and favorites of a window whose system keeps the rows of the list of favorites.
use system_sw_gui_project.Prelude.{
  ℕ, Option, true, false, none, some, List, [], ◌∷◌, ◌++◌, ◌≡◌, refl, Text, codes, arith,
}
use system_sw_gui_project.Run.{done, call, ◌>>=◌}
use system_sw_gui_project.Backend.Requests.{handle, answer_changed}
use system_sw_gui_project.Client.Session.{Desktop, UserData}
use system_sw_gui_project.Client.Callbacks.{
  on_add_to_favorites_action, on_dialog_response, on_delete_response, on_move_dialog_response,
  on_copy_dialog_response,
}
use system_sw_gui_project.Client.Requests.{IsPart}
use system_sw_gui_project.Client.Widgets.{Widgets}
use system_sw_gui_project.Client.Dialogs.{
  permission_bits, on_rename_action, on_delete_action, on_move_action, on_copy_action,
  on_chmod_action,
}
use system_sw_gui_project.Backend.Calls.{Message}
use system_sw_gui_project.Client.Dialogs.Unchanged.{confirmed, unchanged_mode}
use system_sw_gui_project.Client.Dialogs.Unselected.{unselected_quiet}
use system_sw_gui_project.Client.Favorites.{update_favorites_list}
use system_sw_gui_project.Client.Favorites.Rows.{ListDocumented, links, update_favorites_list_lem}
use system_sw_gui_project.Tests.Backend.{disk}

abbrev desktop : Desktop
desktop = record {
  State = List (Text × Text);
  log = λ t s. (tt, s);
  close = λ s. (tt, s);
  path_text = λ s. (codes "/tmp", s);
  entry_text = λ s. (codes "b", s);
  dialog_path = λ s. (codes "/tmp/a", s);
  ftok = λ p s. (some 1, s);
  msgget = λ k s. (some 1, s);
  msgsnd = λ q m s. (true, s);
  msgrcv = λ q t s. (none, s);
  remove_queue = λ q s. (tt, s);
  usleep = λ n s. (tt, s);
  timeout_add = λ n t s. (tt, s);
  is_dir = λ p s. (true, s);
  set_directory = λ p s. (true, s);
  build_filename = λ p name. p ++ b'/' ∷ name;
}

abbrev first : List (Text × Text) → Option ℕ
first [] = none
first (row ∷ rest) = some 0

abbrev without_first : List (Text × Text) → List (Text × Text)
without_first [] = []
without_first (row ∷ rest) = rest

first-none : (s : List (Text × Text)) → s ≡ [] → first s ≡ none
first-none [] e = refl
first-none (row ∷ rest) e = absurd (cc)

first-some :
    (row : Text × Text) (rest s : List (Text × Text))
    → s ≡ row ∷ rest
    → (child : ℕ) × (first s ≡ some child) × (without_first s ≡ rest)
first-some row rest [] e = absurd (cc)
first-some row rest (r ∷ s) e = (0, refl, cc)

-- /tmp/link has the link a in it, which points to /tmp/x.
abbrev widgets : Widgets desktop
widgets = record {
  new_dialog = λ t s. (tt, s);
  new_label = λ t s. (tt, s);
  new_entry = λ t s. (tt, s);
  show = λ s. (tt, s);
  keep_path = λ p s. (tt, s);
  stat_mode = λ p s. (some 0o4755, s);
  popup = λ items x y s. (tt, s);
  first_child = λ s. (first s, s);
  list_remove = λ child s. (tt, without_first s);
  dir_open = λ p s. (some (codes "a" ∷ []), s);
  dir_close = λ s. (tt, s);
  readlink = λ p n s. (some (codes "/tmp/x"), s);
  append_row = λ name t s. (tt, s ++ (name, t) ∷ []);
  path_get_dirname = λ p. p;
  set_path_text = λ p s. (tt, s);
}

widgets-ListDocumented : ListDocumented desktop widgets
widgets-ListDocumented = record {
  rows = λ s. s;
  target = λ p. some (codes "/tmp/x");
  first_child-none = λ s e. first-none s e;
  first_child-some = λ row rest s e. first-some row rest s e;
  rows-first_child = λ s. refl;
  rows-opened = λ p s. refl;
  rows-closed = λ s. refl;
  target-readlink = λ p s. refl;
  rows-readlink = λ p n s. refl;
  rows-appended = λ name t s. refl;
}

abbrev unselected : UserData
unselected = record { selected_file_info = none; is_backend_done = false; is_check_running = false }

abbrev one_row : List (Text × Text)
one_row = (codes "old", codes "/tmp/old") ∷ []

update_favorites_list_lem_example :
    ((update_favorites_list desktop widgets 2 (unselected, one_row)).0 ≡ done tt)
    × (widgets-ListDocumented.rows
          (update_favorites_list desktop widgets 2 (unselected, one_row)).1.1
        ≡ links desktop widgets widgets-ListDocumented (codes "a" ∷ []))
unfolding widgets-ListDocumented
update_favorites_list_lem_example =
    update_favorites_list_lem desktop widgets widgets-ListDocumented 2 unselected one_row
      (codes "a" ∷ []) (omega arith) refl

abbrev IsOneRow : List (Text × Text) → Type 0
IsOneRow s = s ≡ one_row

unselected_quiet_example :
    (IsOneRow (on_rename_action desktop widgets (unselected, one_row)).1.1
      × IsOneRow (on_delete_action desktop widgets (unselected, one_row)).1.1
      × IsOneRow (on_move_action desktop widgets (unselected, one_row)).1.1
      × IsOneRow (on_copy_action desktop widgets (unselected, one_row)).1.1
      × IsOneRow (on_chmod_action desktop widgets (unselected, one_row)).1.1
      × IsOneRow (on_add_to_favorites_action desktop (unselected, one_row)).1.1)
    × (IsOneRow (on_dialog_response desktop true (unselected, one_row)).1.1
        × IsOneRow (on_delete_response desktop true (unselected, one_row)).1.1
        × IsOneRow (on_move_dialog_response desktop true (unselected, one_row)).1.1
        × IsOneRow (on_copy_dialog_response desktop true (unselected, one_row)).1.1)
unselected_quiet_example =
    unselected_quiet desktop IsOneRow (λ t. record { at = λ s h. h }) (record { at = λ s h. h })
      (λ n t. record { at = λ s h. h }) widgets unselected one_row true refl refl

a-IsPart : IsPart (codes "/a")
a-IsPart = ((λ e. cc), (refl, (refl, tt)))

abbrev slashed : Text → Text → Text
slashed p name = p ++ b'/' ∷ name

unchanged_mode_example :
    (buf : Message) × (confirmed slashed [] (codes "a") 0o4755 ≡ buf ∷ [])
    × (handle disk 8 6 2 buf
        ≡ (call (disk.chmod (codes "/a") (permission_bits 0o4755)) >>= answer_changed disk 8 6 2))
unchanged_mode_example =
    unchanged_mode disk 8 6 2 slashed [] (codes "a") 0o4755 a-IsPart (omega arith)
