-- ===== src/Shell/Streams.antt =====
-- The commands that read and write files: custom_shell/cmd_cat.c and cmd_cp.c. Their loops run
-- on fuel, one unit for each read.
pub mod Copy
use system_sw_gui_project.Prelude.{
  ℕ, zero, suc, Bool, true, false, ◌&&◌, Option, none, some, List, [], ◌∷◌, ◌==◌, if◌then◌else◌,
  Text,
}
use system_sw_gui_project.Run.{Run, call, starve, ◌>>=◌, ◌>>◌, skip}
use system_sw_gui_project.Shell.Paths.{is_valid_path}
use system_sw_gui_project.Shell.Paths.Bounds.{bufsiz}
use system_sw_gui_project.Shell.System.{System, print, bytes, say, complain, convert_into}
use system_sw_gui_project.Shell.Commands.{refusal}

module _ (S : System) where
  -- `(ch = fgetc(file)) != EOF` with `ch` a signed char: byte 255 is EOF too.
  unfoldable pub is_eof : Option ℕ → Bool
  is_eof none = true
  is_eof (some c) = c == 255

  abbrev pub byte_of : Option ℕ → Text
  byte_of none = []
  byte_of (some c) = c ∷ []

  unfoldable pub cat_loop : ℕ → ℕ → Run S.State (Unit {0})
  unfolding is_eof
  cat_loop zero file = starve
  cat_loop (suc fuel) file = do
    ch ← call (S.fgetc file)
    elim (is_eof ch) [ true ↦ skip | false ↦ print S (bytes (byte_of ch)) >> cat_loop fuel file ]

  unfoldable pub cat_file : ℕ → Option ℕ → Run S.State (Unit {0})
  cat_file fuel none = complain S "file"
  cat_file fuel (some file) = do cat_loop fuel file; call (S.fclose file)

  unfoldable pub cat_with : ℕ → List Text → Option Text → Run S.State (Unit {0})
  unfolding cat_file
  cat_with fuel (_ ∷ path ∷ []) block = do
    absolute ← convert_into S block path
    if is_valid_path absolute
        then (do file ← call (S.fopen_read path); cat_file fuel file)
        else say S refusal
  cat_with fuel argv block = say S "usage: cat <파일명>\n"

  unfoldable pub cmd_cat : ℕ → List Text → Run S.State (Unit {0})
  unfolding cat_with
  cmd_cat fuel argv = do block ← call (S.malloc bufsiz); cat_with fuel argv block

  -- while ((byte = fread(buffer, 1, sizeof(buffer), src)) > 0) fwrite(buffer, 1, byte, tar);
  unfoldable pub copy_loop : ℕ → ℕ → ℕ → Run S.State (Unit {0})
  copy_loop zero src tar = starve
  copy_loop (suc fuel) src tar = do
    chunk ← call (S.fread src bufsiz)
    elim chunk [ [] ↦ skip | c ∷ rest ↦ call (S.fwrite tar (c ∷ rest)) >> copy_loop fuel src tar ]

  unfoldable pub copy_opened : ℕ → ℕ → Option ℕ → Run S.State (Unit {0})
  copy_opened fuel src none = do complain S "Error opening source file"; call (S.fclose src)
  copy_opened fuel src (some tar) = do
    copy_loop fuel src tar
    call (S.fclose src)
    call (S.fclose tar)

  unfoldable pub copy_from : ℕ → Text → Option ℕ → Run S.State (Unit {0})
  unfolding copy_opened
  copy_from fuel target none = complain S "Error opening source file"
  copy_from fuel target (some src) = do tar ← call (S.fopen_write target); copy_opened fuel src tar

  unfoldable pub copy_file : ℕ → Text → Text → Run S.State (Unit {0})
  unfolding copy_from
  copy_file fuel source target = do src ← call (S.fopen_read source); copy_from fuel target src

  unfoldable pub cp_with : ℕ → List Text → Option Text → Option Text → Run S.State (Unit {0})
  cp_with fuel (_ ∷ origin ∷ new ∷ []) block block' = do
    absolute_origin ← convert_into S block origin
    absolute_new ← convert_into S block' new
    if is_valid_path absolute_origin && is_valid_path absolute_new
        then copy_file fuel absolute_origin absolute_new
        else say S refusal
  cp_with fuel argv _ _ = say S "usage: cp <original file> <new file>\n"

  unfoldable pub cmd_cp : ℕ → List Text → Run S.State (Unit {0})
  unfolding cp_with
  cmd_cp fuel argv = do
    block ← call (S.malloc bufsiz)
    block' ← call (S.malloc bufsiz)
    cp_with fuel argv block block'
