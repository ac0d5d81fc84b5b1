-- ===== src/Client/Navigate.antt =====
-- The callbacks of dir_manage_gtk/ui_cd.c that go to another directory or open a file. They keep
-- the text of data->path_entry and the directory that data->directorylist shows.
pub mod Synced
use system_sw_gui_project.Prelude.{
  ℕ, String, Bool, false, ◌||◌, ◌≡◌, Option, none, some, List, [], ◌∷◌, ◌++◌, if◌then◌else◌, Text,
  codes,
}
use system_sw_gui_project.Libc.Strings.{strrchr}

-- The types of g_file_info_get_file_type that are told apart.
pub data FileType : Type 0 where
  directory regular other : FileType

-- `item` is the row at a position, with its name and type; `is_dir` is g_file_test, `printerr` is
-- g_printerr and g_print with a line less its arguments.
pub record Glib : Type 1 where
  pub World : Type 0
  pub File : Type 0
  pub file_new_for_path : Text → File
  pub file_get_parent : File → Option File
  pub file_get_child : File → Text → File
  pub file_get_path : File → Text
  pub build_filename : Text → Text → Text
  pub str_has_suffix : Text → Text → Bool
  pub item : ℕ → World → Option (Text × FileType)
  pub is_dir : Text → World → Bool
  pub printerr : String → World → World
  pub system : Text → World → World

-- Paths that name a file name it again, and come back as they were made.
pub record GlibDocumented (G : Glib) : Type 0 where
  pub file-path : (f : G.File) → G.file_new_for_path (G.file_get_path f) ≡ f

pub record Window (G : Glib) : Type 0 where
  pub path_text : Text
  pub shown : G.File
  pub world : G.World

abbrev pub text_extensions : List Text
text_extensions =
    codes ".txt"
    ∷ codes ".c"
    ∷ codes ".h"
    ∷ codes ".py"
    ∷ codes ".cpp"
    ∷ codes ".java"
    ∷ codes ".js"
    ∷ codes ".json"
    ∷ codes ".md"
    ∷ codes ".css"
    ∷ codes ".html"
    ∷ codes ".rs"
    ∷ []

abbrev pub nano : Text
nano = codes "x-terminal-emulator -e nano '"

abbrev pub command : Text → Text
command full_path = nano ++ full_path ++ codes "' &"

module _ (G : Glib) where
  -- g_printerr and g_print
  abbrev pub say : String → Window G → Window G
  say line w = record w { world = G.printerr line w.world }

  unfoldable pub update_directory : Window G → Window G
  update_directory w =
      if G.is_dir w.path_text w.world
      then record w { shown = G.file_new_for_path w.path_text }
      else say "Invalid directory path: %s\n" w

  -- The parent of the directory that the entry's text names.
  unfoldable pub show_parent : Option G.File → Window G → Window G
  show_parent (some parent_dir) w = record w {
    shown = parent_dir;
    path_text = G.file_get_path parent_dir;
  }
  show_parent none w = say "No parent directory.\n" w

  unfoldable pub upper_directory : Window G → Window G
  unfolding show_parent
  upper_directory w = show_parent (G.file_get_parent (G.file_new_for_path w.path_text)) w

  -- The loop over the extensions.
  unfoldable pub is_text_file : Text → List Text → Bool
  is_text_file name [] = false
  is_text_file name (extension ∷ rest) = G.str_has_suffix name extension || is_text_file name rest

  unfoldable pub open_regular : Option ℕ → Text → Text → Window G → Window G
  unfolding is_text_file
  open_regular none name full_path w = w
  open_regular (some ext) name full_path w =
      if is_text_file name text_extensions
      then record w { world = G.system (command full_path) w.world }
      else w

  unfoldable pub activate : FileType → Text → Window G → Window G
  unfolding open_regular
  activate directory name w =
      let new_dir = G.file_get_child (G.file_new_for_path w.path_text) name in
      record w { shown = new_dir; path_text = G.file_get_path new_dir }
  activate regular name w =
      open_regular (strrchr name b'.') name (G.build_filename w.path_text name) w
  activate other name w = say "Unsupported file type\n" w

  unfoldable pub activate_item : Option (Text × FileType) → Window G → Window G
  unfolding activate
  activate_item none w = w
  activate_item (some (name, type)) w = activate type name w

  unfoldable pub on_columnview_activate : ℕ → Window G → Window G
  unfolding activate_item
  on_columnview_activate position w = activate_item (G.item position w.world) w
