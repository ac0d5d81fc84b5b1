-- ===== src/Backend/Files.antt =====
-- The file operations of backend.c. A result is true where the source returns 0. The loops over
-- bytes and the recursion over directories run on fuel.
use system_sw_gui_project.Prelude.{
  ℕ, zero, suc, Bool, true, false, ◌||◌, Option, none, some, List, [], ◌∷◌, ◌++◌, ◌==◌,
  if◌then◌else◌, Text, codes, length,
}
use system_sw_gui_project.Libc.Strings.{str_eq, tokens, truncate}
use system_sw_gui_project.Run.{Run, pure, call, starve, ◌>>=◌, ◌>>◌}
use system_sw_gui_project.Backend.Calls.{Calls, Kind, regular, directory, other, note}

-- sizeof(buf)
abbrev pub chunk_size : ℕ
chunk_size = 8192

abbrev pub is_dollar : ℕ → Bool
is_dollar c = c == b'$'

-- strcmp with `.` and `..`
unfoldable pub is_dot : Text → Bool
is_dot name = str_eq name (codes ".") || str_eq name (codes "..")

-- snprintf(buf, sizeof(buf), "%s/%s", path, name), with PATH_MAX = 4096 bytes
unfoldable pub join : Text → Text → Text
join path name = truncate 4095 (path ++ b'/' ∷ name)

module _ (K : Calls) where
  unfoldable pub remove_callback : Text → Run K.State Bool
  remove_callback fpath = do
    removed ← call (K.remove fpath)
    if removed then pure true else note K "remove" >> pure false

  -- nftw with remove_callback: it stops at the first callback that does not return 0.
  unfoldable pub remove_all : List Text → Run K.State Bool
  unfolding remove_callback
  remove_all [] = pure true
  remove_all (path ∷ paths) = do
    removed ← remove_callback path
    elim removed [ true ↦ remove_all paths | false ↦ pure false ]

  unfoldable pub remove_walked : Option (List Text) → Run K.State Bool
  unfolding remove_all
  remove_walked none = pure false
  remove_walked (some paths) = remove_all paths

  unfoldable pub remove_kind : Text → Option (Kind × ℕ) → Run K.State Bool
  unfolding remove_walked
  remove_kind path none = do note K "stat failed"; pure false
  remove_kind path (some (directory, mode)) = do
    removed ← call (K.rmdir path)
    if removed then pure true else (do paths ← call (K.walk path); remove_walked paths)
  remove_kind path (some (_, mode)) = call (K.unlink path)

  unfoldable pub remove_file_or_directory : Text → Run K.State Bool
  unfolding remove_kind
  remove_file_or_directory path = do found ← call (K.stat path); remove_kind path found

  unfoldable pub rename_tokens : List Text → Run K.State Bool
  rename_tokens (old_name ∷ new_name ∷ _) = do
    renamed ← call (K.rename old_name new_name)
    if renamed then pure true else note K "rename" >> pure false
  rename_tokens _ = pure false

  unfoldable pub rename_file_or_directory : Text → Run K.State Bool
  unfolding rename_tokens
  rename_file_or_directory path = rename_tokens (tokens is_dollar path)

  -- The loop of both copies: read a chunk, write it, and stop at a short write.
  unfoldable pub copy_bytes : ℕ → ℕ → ℕ → Run K.State Bool
  copy_bytes zero src dst = starve
  copy_bytes (suc fuel) src dst = do
    chunk ← call (K.fread src chunk_size)
    elim chunk [
      | [] ↦ pure true
      | c ∷ rest ↦ (do
        size ← call (K.fwrite dst (c ∷ rest))
        elim (size == length (c ∷ rest)) [ true ↦ copy_bytes fuel src dst | false ↦ pure false ])
    ]

  -- What stands behind the loop: close both files, and remove a copy that is not whole.
  unfoldable pub close_copy : Text → ℕ → ℕ → Bool → Run K.State Bool
  close_copy dest_path src dst whole = do
    call (K.fclose src)
    call (K.fclose dst)
    if whole then pure true else call (K.unlink dest_path) >> pure false

  unfoldable pub copy_to : ℕ → Text → ℕ → Option ℕ → Run K.State Bool
  unfolding copy_bytes close_copy
  copy_to fuel dest_path src none = do call (K.fclose src); pure false
  copy_to fuel dest_path src (some dst) = do
    whole ← copy_bytes fuel src dst
    close_copy dest_path src dst whole

  unfoldable pub copy_opened : ℕ → Text → Option ℕ → Run K.State Bool
  unfolding copy_to
  copy_opened fuel dest_path none = pure false
  copy_opened fuel dest_path (some src) = do
    dst ← call (K.fopen_write dest_path)
    copy_to fuel dest_path src dst

  -- The part of move_directory and copy_file from fopen to the end of the loop.
  unfoldable pub copy_content : ℕ → Text → Text → Run K.State Bool
  unfolding copy_opened
  copy_content fuel src_path dest_path = do
    src ← call (K.fopen_read src_path)
    copy_opened fuel dest_path src

  -- The loop over a directory's entries, with the recursive call that it makes.
  unfoldable pub each_entry :
      (Text → Text → Run K.State Bool) → Text → Text → List Text → Run K.State Bool
  unfolding is_dot join
  each_entry go src_path dest_path [] = do call K.closedir; pure true
  each_entry go src_path dest_path (name ∷ names) =
      let rest = each_entry go src_path dest_path names in
      let entered = (do
        success ← go (join src_path name) (join dest_path name)
        if success then rest else call K.closedir >> pure false) in
      if is_dot name then rest else entered

  -- opendir, mkdir of the destination with the source's mode, and the loop.
  unfoldable pub into_directory :
      (Text → Text → Run K.State Bool) → Text → Text → ℕ → Option (List Text) → Run K.State Bool
  unfolding each_entry
  into_directory go src_path dest_path mode none = pure false
  into_directory go src_path dest_path mode (some names) = do
    call (K.mkdir dest_path mode)
    each_entry go src_path dest_path names

  unfoldable pub move_file : ℕ → Text → Text → Run K.State Bool
  unfolding copy_content
  move_file fuel src_path dest_path = do
    renamed ← call (K.rename src_path dest_path)
    if renamed then pure true else (do
      copied ← copy_content fuel src_path dest_path
      if copied then call (K.unlink src_path) else pure false)

  unfoldable pub move_kind :
      (Text → Text → Run K.State Bool) → ℕ → Text → Text → Option (Kind × ℕ) → Run K.State Bool
  unfolding into_directory move_file remove_file_or_directory
  move_kind go fuel src_path dest_path none = pure false
  move_kind go fuel src_path dest_path (some (directory, mode)) = do
    names ← call (K.opendir src_path)
    moved ← into_directory go src_path dest_path mode names
    if moved then remove_file_or_directory src_path else pure false
  move_kind go fuel src_path dest_path (some (_, mode)) = move_file fuel src_path dest_path

  -- `depth` bounds the nesting of directories, `fuel` the chunks of a file.
  unfoldable pub move_directory : ℕ → ℕ → Text → Text → Run K.State Bool
  unfolding move_kind
  move_directory zero fuel src_path dest_path = starve
  move_directory (suc depth) fuel src_path dest_path = do
    found ← call (K.stat src_path)
    move_kind (move_directory depth fuel) fuel src_path dest_path found

  unfoldable pub copy_regular : ℕ → Text → Text → ℕ → Run K.State Bool
  unfolding copy_content
  copy_regular fuel src_path dest_path mode = do
    copied ← copy_content fuel src_path dest_path
    if copied then call (K.chmod dest_path mode) >> pure true else pure false

  unfoldable pub copy_kind :
      (Text → Text → Run K.State Bool) → ℕ → Text → Text → Option (Kind × ℕ) → Run K.State Bool
  unfolding copy_regular into_directory
  copy_kind go fuel src_path dest_path none = pure false
  copy_kind go fuel src_path dest_path (some (regular, mode)) =
      copy_regular fuel src_path dest_path mode
  copy_kind go fuel src_path dest_path (some (directory, mode)) = do
    names ← call (K.opendir src_path)
    into_directory go src_path dest_path mode names
  copy_kind go fuel src_path dest_path (some (other, mode)) = pure false

  unfoldable pub copy_file : ℕ → ℕ → Text → Text → Run K.State Bool
  unfolding copy_kind
  copy_file zero fuel src_path dest_path = starve
  copy_file (suc depth) fuel src_path dest_path = do
    found ← call (K.stat src_path)
    copy_kind (copy_file depth fuel) fuel src_path dest_path found
