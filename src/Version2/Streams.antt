-- ===== src/Version2/Streams.antt =====
-- cmd_cat, copy_file and cmd_cp of dir_manage_ver2/manage_dir.c. The loops run on fuel.
use system_sw_gui_project.Prelude.{
  ℕ, zero, suc, ◌&&◌, Option, none, some, List, [], ◌∷◌, ◌==◌, if◌then◌else◌, Text,
}
use system_sw_gui_project.Run.{Run, crash, call, starve, ◌>>=◌, ◌>>◌, skip}
use system_sw_gui_project.Shell.Paths.Bounds.{bufsiz}
use system_sw_gui_project.Shell.System.{System, print, say, complain, bytes}
use system_sw_gui_project.Version2.Paths.{is_valid_path, convert_into}
use system_sw_gui_project.Version2.Commands.{denied}

-- (ch = fgetc(file)) != EOF, with ch a signed char: what putchar gets, or the end.
unfoldable pub kept_char : Option ℕ → Option ℕ
kept_char none = none
kept_char (some c) = if c == 255 then none else some c

module _ (S : System) where
  unfoldable pub show_file : ℕ → ℕ → Run S.State (Unit {0})
  unfolding kept_char
  show_file zero file = starve
  show_file (suc fuel) file = do
    ch ← call (S.fgetc file)
    elim (kept_char ch) [ none ↦ skip | some c ↦ print S (bytes (c ∷ [])) >> show_file fuel file ]

  unfoldable pub show_opened : ℕ → Option ℕ → Run S.State (Unit {0})
  unfolding show_file
  show_opened fuel none = complain S "file"
  show_opened fuel (some file) = do show_file fuel file; call (S.fclose file)

  unfoldable pub cat_with : ℕ → List Text → Option Text → Run S.State (Unit {0})
  unfolding show_opened
  cat_with fuel (_ ∷ path ∷ []) block = do
    absolute ← convert_into S block path
    if is_valid_path absolute
        then (do file ← call (S.fopen_read path); show_opened fuel file)
        else say S denied
  cat_with fuel argv block = say S "usage: cat <파일명>\n"

  unfoldable pub cmd_cat : ℕ → List Text → Run S.State (Unit {0})
  unfolding cat_with
  cmd_cat fuel argv = do block ← call (S.malloc bufsiz); cat_with fuel argv block

  unfoldable pub copy_stream : ℕ → ℕ → ℕ → Run S.State (Unit {0})
  copy_stream zero src tar = starve
  copy_stream (suc fuel) src tar = do
    chunk ← call (S.fread src bufsiz)
    elim chunk [ [] ↦ skip | c ∷ rest ↦ call (S.fwrite tar (c ∷ rest)) >> copy_stream fuel src tar ]

  -- The test behind fopen(target, "wb") is on the name, which is no null pointer. Without a
  -- stream, fwrite or fclose follows the null pointer.
  unfoldable pub copy_opened : ℕ → ℕ → Option ℕ → Run S.State (Unit {0})
  unfolding copy_stream
  copy_opened fuel src none = do
    chunk ← call (S.fread src bufsiz)
    elim chunk [ [] ↦ call (S.fclose src) >> crash | c ∷ rest ↦ crash ]
  copy_opened fuel src (some tar) = do
    copy_stream fuel src tar
    call (S.fclose src)
    call (S.fclose tar)

  -- fclose(src) with the null pointer.
  unfoldable pub copy_from : ℕ → Text → Option ℕ → Run S.State (Unit {0})
  unfolding copy_opened
  copy_from fuel target none = complain S "Error opening source file" >> crash
  copy_from fuel target (some src) = do tar ← call (S.fopen_write target); copy_opened fuel src tar

  unfoldable pub copy_file : ℕ → Text → Text → Run S.State (Unit {0})
  unfolding copy_from
  copy_file fuel source target = do src ← call (S.fopen_read source); copy_from fuel target src

  unfoldable pub cp_with : ℕ → List Text → Option Text → Option Text → Run S.State (Unit {0})
  unfolding copy_file
  cp_with fuel (_ ∷ origin ∷ new ∷ []) block block' = do
    absolute_origin ← convert_into S block origin
    absolute_new ← convert_into S block' new
    if is_valid_path absolute_origin && is_valid_path absolute_new
        then copy_file fuel absolute_origin absolute_new
        else say S denied
  cp_with fuel argv _ _ = say S "usage: cp <original file> <new file>\n"

  unfoldable pub cmd_cp : ℕ → List Text → Run S.State (Unit {0})
  unfolding cp_with
  cmd_cp fuel argv = do
    block ← call (S.malloc bufsiz)
    block' ← call (S.malloc bufsiz)
    cp_with fuel argv block block'
