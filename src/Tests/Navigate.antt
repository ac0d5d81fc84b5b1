-- ===== src/Tests/Navigate.antt =====
-- Going through directories whose names are lists of names.
use system_sw_gui_project.Prelude.{
  true, none, some, List, [], ◌∷◌, ◌++◌, ◌≡◌, ◌⊎◌, refl, Text, codes,
}
use system_sw_gui_project.Client.Navigate.{
  Glib, GlibDocumented, Window, directory, update_directory, upper_directory,
  on_columnview_activate,
}
use system_sw_gui_project.Client.Navigate.Synced.{IsSynced, Stays, navigation-IsSynced}

-- A file is its path, every directory has the directory a in it, and nothing has a parent.
abbrev plain : Glib
plain = record {
  World = List Text;
  File = Text;
  file_new_for_path = λ p. p;
  file_get_parent = λ f. none;
  file_get_child = λ f name. f ++ b'/' ∷ name;
  file_get_path = λ f. f;
  build_filename = λ p name. p ++ b'/' ∷ name;
  str_has_suffix = λ s t. true;
  item = λ position w. some (codes "a", directory);
  is_dir = λ p w. true;
  printerr = λ line w. codes line ∷ w;
  system = λ c w. c ∷ w;
}

abbrev window : Window plain
window = record { path_text = codes "/tmp"; shown = codes "/"; world = [] }

plain-GlibDocumented : GlibDocumented plain
plain-GlibDocumented = record { file-path = λ f. refl }

row_run : (on_columnview_activate plain 0 window).path_text ≡ codes "/tmp/a"
unfolding on_columnview_activate
row_run = refl

navigation-IsSynced_example :
    (IsSynced plain plain-GlibDocumented (update_directory plain window)
      ⊎ Stays plain plain-GlibDocumented window (update_directory plain window))
    × (IsSynced plain plain-GlibDocumented (upper_directory plain window)
        ⊎ Stays plain plain-GlibDocumented window (upper_directory plain window))
    × (IsSynced plain plain-GlibDocumented (on_columnview_activate plain 0 window)
        ⊎ Stays plain plain-GlibDocumented window (on_columnview_activate plain 0 window))
navigation-IsSynced_example = navigation-IsSynced plain plain-GlibDocumented window 0
