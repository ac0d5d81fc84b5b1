-- ===== src/Client/Columns.antt =====
-- dir_manage_gtk/ui_list.c: what the columns of the list show of a row and are sorted by.
use system_sw_gui_project.Prelude.{Option, none, some, ℤ, negsuc, Text, String}
use mathlib.Core.Option

-- A GFileInfo: icon and date of the last change may be missing.
pub record FileInfo (Icon Date : Type 0) : Type 0 where
  pub name : Text
  pub size : ℤ
  pub icon : Option Icon
  pub modified : Option Date

-- `format` is g_date_time_format, `to_unix` g_date_time_to_unix. `info` is none where
-- G_IS_FILE_INFO is false, a result of none is NULL.
module _ (Icon Date : Type 0) (format : String → Date → Text) (to_unix : Date → ℤ) where
  abbrev Info : Type 0
  Info = Option (FileInfo Icon Date)

  unfoldable pub get_icon_factory : Info → Option Icon
  get_icon_factory none = none
  get_icon_factory (some info) = info.icon

  unfoldable pub get_file_name_factory : Info → Option Text
  get_file_name_factory none = none
  get_file_name_factory (some info) = some info.name

  unfoldable pub get_file_size_factory : Info → ℤ
  get_file_size_factory none = negsuc 0
  get_file_size_factory (some info) = info.size

  unfoldable pub get_file_time_modified_factory : Info → Option Text
  get_file_time_modified_factory none = none
  get_file_time_modified_factory (some info) = Option.map (λ dt. format "%F" dt) info.modified

  unfoldable pub get_file_name : Info → Option Text
  get_file_name none = none
  get_file_name (some info) = some info.name

  unfoldable pub get_file_size : Info → ℤ
  get_file_size none = negsuc 0
  get_file_size (some info) = info.size

  unfoldable pub get_file_unixtime_modified : Info → ℤ
  get_file_unixtime_modified none = negsuc 0
  get_file_unixtime_modified (some info) = elim info.modified [
    | none ↦ negsuc 0
    | some dt ↦ to_unix dt
  ]
