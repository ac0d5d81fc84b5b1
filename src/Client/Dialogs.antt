-- ===== src/Client/Dialogs.antt =====
-- The actions of ui_manage.c and ui_cd.c that ask for more in a dialog. Margins, alignments
-- and the arguments of labels are left out.
pub mod Unselected
pub mod Modes
pub mod Unchanged
use system_sw_gui_project.Prelude.{
  ℕ, ◌+◌, ◌/◌, ◌%◌, Option, none, some, [], ◌∷◌, ◌++◌, String, Text, codes,
}
use Prim.Native.Nat.{bit_and}
use system_sw_gui_project.Libc.Strings.{truncate}
use system_sw_gui_project.Run.{Run, ◌>>=◌, ◌>>◌, skip}
use system_sw_gui_project.Client.Session.{Desktop, Session, outside, data_now, say}
use system_sw_gui_project.Client.Widgets.{Widgets}

-- What %03o prints for a number below 0o1000.
unfoldable pub three_octal : ℕ → Text
three_octal mode = (b'0' + mode / 64 % 8) ∷ (b'0' + mode / 8 % 8) ∷ (b'0' + mode % 8) ∷ []

-- The nine permission bits, and their text in a buffer of four bytes.
unfoldable pub permission_bits : ℕ → ℕ
permission_bits st_mode = bit_and st_mode 0o777

unfoldable pub mode_text : ℕ → Text
unfolding three_octal
mode_text mode = truncate 3 (three_octal mode)

module _ (D : Desktop) (W : Widgets D) where
  abbrev ask : String → Run (Session D) (Unit {0})
  ask title = outside D (W.new_dialog title)

  unfoldable pub rename_dialog : Option Text → Run (Session D) (Unit {0})
  rename_dialog none = say D "No file selected to rename.\n"
  rename_dialog (some current_name) = do
    ask "Rename File"
    outside D (W.new_label "Enter new file name:")
    outside D (W.new_entry current_name)
    outside D W.show

  unfoldable pub on_rename_action : Run (Session D) (Unit {0})
  unfolding rename_dialog
  on_rename_action = do u ← data_now D; rename_dialog u.selected_file_info

  unfoldable pub delete_dialog : Option Text → Run (Session D) (Unit {0})
  delete_dialog none = say D "No file selected to delete.\n"
  delete_dialog (some name) = do ask "Are you sure you want to delete?"; outside D W.show

  unfoldable pub on_delete_action : Run (Session D) (Unit {0})
  unfolding delete_dialog
  on_delete_action = do u ← data_now D; delete_dialog u.selected_file_info

  -- The dialogs of on_move_action and on_copy_action, which differ in their texts. The entry
  -- starts with the text of path_entry.
  unfoldable pub transfer_dialog :
      String → String → String → Option Text → Run (Session D) (Unit {0})
  transfer_dialog title refusal question none = say D refusal
  transfer_dialog title refusal question (some current_name) = do
    ask title
    outside D (W.new_label "선택된 파일: %s")
    outside D (W.new_label question)
    current_path ← outside D D.path_text
    outside D (W.new_entry current_path)
    outside D W.show

  unfoldable pub on_move_action : Run (Session D) (Unit {0})
  unfolding transfer_dialog
  on_move_action = do
    u ← data_now D
    transfer_dialog "파일 이동" "No file selected to move.\n" "이동할 경로:" u.selected_file_info

  unfoldable pub on_copy_action : Run (Session D) (Unit {0})
  unfolding transfer_dialog
  on_copy_action = do
    u ← data_now D
    transfer_dialog "파일 복사" "No file selected to copy.\n" "복사할 경로:" u.selected_file_info

  -- From what stat has found on.
  unfoldable pub chmod_asked : Text → Text → Option ℕ → Run (Session D) (Unit {0})
  unfolding permission_bits mode_text
  chmod_asked file_name file_path none = say D "Failed to get file permissions.\n"
  chmod_asked file_name file_path (some st_mode) =
      let mode = permission_bits st_mode in
      (do
        ask "권한 변경"
        outside D (W.new_label "선택된 파일: %s\n현재 권한: %03o")
        outside D (W.new_label "새 권한 (8진수, 예: 644):")
        outside D (W.new_entry (mode_text mode))
        outside D W.show
        outside D (W.keep_path file_path))

  unfoldable pub chmod_dialog : Option Text → Run (Session D) (Unit {0})
  unfolding chmod_asked
  chmod_dialog none = say D "No file selected for chmod.\n"
  chmod_dialog (some file_name) = do
    current_path ← outside D D.path_text
    let file_path = D.build_filename current_path file_name in
        (do found ← outside D (W.stat_mode file_path); chmod_asked file_name file_path found)

  unfoldable pub on_chmod_action : Run (Session D) (Unit {0})
  unfolding chmod_dialog
  on_chmod_action = do u ← data_now D; chmod_dialog u.selected_file_info
