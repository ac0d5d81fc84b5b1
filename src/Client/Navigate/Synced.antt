-- ===== src/Client/Navigate/Synced.antt =====
-- Whether the entry's text names the directory that is shown.
use system_sw_gui_project.Prelude.{
  ℕ, Option, none, some, ◌≡◌, ◌⊎◌, inl, inr, refl, sym, Text, Bool-cases,
}
use system_sw_gui_project.Libc.Strings.{strrchr}
use system_sw_gui_project.Client.Navigate.{
  Glib, GlibDocumented, Window, FileType, directory, regular, other, text_extensions,
  update_directory, show_parent, upper_directory, is_text_file, open_regular, activate,
  activate_item, on_columnview_activate,
}

module _ (G : Glib) (glib : GlibDocumented G) where
  abbrev pub IsSynced : Window G → Type 0
  IsSynced w = w.shown ≡ G.file_new_for_path w.path_text

  -- Neither the entry nor the list has changed.
  abbrev pub Stays : Window G → Window G → Type 0
  Stays w w' = (w'.path_text ≡ w.path_text) × (w'.shown ≡ w.shown)

  show_parent_lem :
      (f : Option G.File) (w : Window G)
      → IsSynced (show_parent G f w) ⊎ Stays w (show_parent G f w)
  unfolding show_parent
  show_parent_lem none w = inr (refl, refl)
  show_parent_lem (some f) w = inl (sym (glib.file-path f))

  open_regular-Stays :
      (ext : Option ℕ) (name full_path : Text) (w : Window G)
      → Stays w (open_regular G ext name full_path w)
  unfolding open_regular
  open_regular-Stays none name full_path w = (refl, refl)
  open_regular-Stays (some ext) name full_path w =
      elim (Bool-cases (is_text_file G name text_extensions)) [
        | inl e ↦ rw e (refl, refl)
        | inr e ↦ rw e (refl, refl)
      ]

  activate_lem :
      (type : FileType) (name : Text) (w : Window G)
      → IsSynced (activate G type name w) ⊎ Stays w (activate G type name w)
  unfolding activate
  activate_lem directory name w = inl (sym (glib.file-path _))
  activate_lem regular name w = inr (open_regular-Stays (strrchr name b'.') name _ w)
  activate_lem other name w = inr (refl, refl)

  activate_item_lem :
      (item : Option (Text × FileType)) (w : Window G)
      → IsSynced (activate_item G item w) ⊎ Stays w (activate_item G item w)
  unfolding activate_item
  activate_item_lem none w = inr (refl, refl)
  activate_item_lem (some (name, type)) w = activate_lem type name w

  update_directory_lem :
      (w : Window G) → IsSynced (update_directory G w) ⊎ Stays w (update_directory G w)
  unfolding update_directory
  update_directory_lem w = elim (Bool-cases (G.is_dir w.path_text w.world)) [
    | inl e ↦ inl (rw e refl)
    | inr e ↦ inr (rw e (refl, refl))
  ]

  -- The button for a directory that was typed, the one for the parent, and a row that is
  -- activated each either leave the entry and the list as they were, or leave the list at the
  -- directory that the entry's text names.
  pub navigation-IsSynced :
      (w : Window G) (position : ℕ)
      → (IsSynced (update_directory G w) ⊎ Stays w (update_directory G w))
        × (IsSynced (upper_directory G w) ⊎ Stays w (upper_directory G w))
        × (IsSynced (on_columnview_activate G position w)
            ⊎ Stays w (on_columnview_activate G position w))
  unfolding upper_directory on_columnview_activate
  navigation-IsSynced w position = (
    update_directory_lem w,
    show_parent_lem (G.file_get_parent (G.file_new_for_path w.path_text)) w,
    activate_item_lem (G.item position w.world) w,
  )
