-- ===== src/Backend/Allows/Files.antt =====
-- Copying, moving and deleting change only paths that may be changed.
use system_sw_gui_project.Prelude.{
  if◌then◌else◌, ℕ, zero, suc, ◌==◌, Bool, true, false, Option, none, some, List, [], ◌∷◌, Text,
  All, length,
}
use system_sw_gui_project.Run.{Run, pure, call, ◌>>=◌, ◌>>◌}
use system_sw_gui_project.Run.Keeps.{Keeps, Keeps-bind, Keeps-if}
use system_sw_gui_project.Backend.Calls.{Calls, Kind, regular, directory, other}
use system_sw_gui_project.Backend.Files.{
  chunk_size, join, remove_callback, remove_all, remove_walked, remove_kind,
  remove_file_or_directory, rename_tokens, copy_bytes, close_copy, copy_to, copy_opened,
  copy_content, each_entry, into_directory, move_file, move_kind, move_directory, copy_regular,
  copy_kind, copy_file,
}
use system_sw_gui_project.Backend.Allows.{
  Allows, allows_rules, Walked, stat-Keeps, opendir-Keeps, fread-Keeps, fwrite-Keeps,
}

-- The recursive call keeps P for sources in V and destinations that may be changed.
module _ (K : Calls) (P : K.State → Type 0) (W V : Text → Type 0) (a : Allows K P W)
    (under : (p name : Text) → V p → V (join p name)) (go : Text → Text → Run K.State Bool)
    (go-Keeps : (p q : Text) → V p → W q → Keeps P (go p q)) where
  entered-Keeps :
      (rest : Run K.State Bool) (p q : Text)
      → V p
      → W q
      → Keeps P rest
      → Keeps P (go p q >>= λ success. if success then rest else call K.closedir >> pure false)
  entered-Keeps rest p q v w k = search (allows_rules, go-Keeps)

  each_entry-Keeps :
      (names : List Text) (p q : Text) → V p → W q → Keeps P (each_entry K go p q names)
  unfolding each_entry
  each_entry-Keeps [] p q v w = search allows_rules
  each_entry-Keeps (name ∷ names) p q v w =
      Keeps-if _ _ _ (λ _. each_entry-Keeps names p q v w)
        (entered-Keeps (each_entry K go p q names) (join p name) (join q name) (under p name v)
          (a.below q name w) (each_entry-Keeps names p q v w))

  pub into_directory-Keeps :
      (p q : Text) (mode : ℕ) (o : Option (List Text))
      → V p
      → W q
      → Keeps P (into_directory K go p q mode o)
  unfolding into_directory
  into_directory-Keeps p q mode none v w = search allows_rules
  into_directory-Keeps p q mode (some names) v w = search (allows_rules, each_entry-Keeps)

module _ (K : Calls) (P : K.State → Type 0) (W : Text → Type 0) (a : Allows K P W) where
  remove_callback-Keeps : (p : Text) → W p → Keeps P (remove_callback K p)
  unfolding remove_callback
  remove_callback-Keeps p w = search allows_rules

  remove_step-Keeps :
      (rest : Run K.State Bool) (b : Bool)
      → Keeps P rest
      → Keeps P (elim b as (λ _. Run K.State Bool) [ true ↦ rest | false ↦ pure false ])
  remove_step-Keeps rest true k = k
  remove_step-Keeps rest false k = search allows_rules

  remove_all-Keeps : (paths : List Text) → All W paths → Keeps P (remove_all K paths)
  unfolding remove_all
  remove_all-Keeps [] w = search allows_rules
  remove_all-Keeps (p ∷ paths) (w, ws) =
      Keeps-bind _ _ (remove_callback-Keeps p w)
        (λ b. remove_step-Keeps (remove_all K paths) b (remove_all-Keeps paths ws))

  remove_walked-Keeps : (o : Option (List Text)) → Walked W o → Keeps P (remove_walked K o)
  unfolding remove_walked
  remove_walked-Keeps none w = search allows_rules
  remove_walked-Keeps (some paths) w = remove_all-Keeps paths w

  walk_and_remove-Keeps : (p : Text) → W p → Keeps P (call (K.walk p) >>= remove_walked K)
  unfolding ◌>>=◌
  walk_and_remove-Keeps p w = record {
    at = λ s h.
        (remove_walked-Keeps (K.walk p s).0 (a.visited p s w)).at (K.walk p s).1
          ((a.walk p).at s h);
  }

  remove_kind-Keeps : (p : Text) (o : Option (Kind × ℕ)) → W p → Keeps P (remove_kind K p o)
  unfolding remove_kind
  remove_kind-Keeps p none w = search allows_rules
  remove_kind-Keeps p (some (directory, mode)) w = search (allows_rules, walk_and_remove-Keeps)
  remove_kind-Keeps p (some (regular, mode)) w = search allows_rules
  remove_kind-Keeps p (some (other, mode)) w = search allows_rules

  pub remove_file_or_directory-Keeps : (p : Text) → W p → Keeps P (remove_file_or_directory K p)
  unfolding remove_file_or_directory
  remove_file_or_directory-Keeps p w = search (allows_rules, remove_kind-Keeps)

  pub rename_tokens-Keeps : (ts : List Text) → All W ts → Keeps P (rename_tokens K ts)
  unfolding rename_tokens
  rename_tokens-Keeps [] w = search allows_rules
  rename_tokens-Keeps (t ∷ []) w = search allows_rules
  rename_tokens-Keeps (t ∷ u ∷ ts) (w, (x, _)) = search allows_rules

  chunk_step-Keeps :
      (whole : Bool) (rest : Run K.State Bool)
      → Keeps P rest
      → Keeps P (elim whole as (λ _. Run K.State Bool) [ true ↦ rest | false ↦ pure false ])
  chunk_step-Keeps true rest k = k
  chunk_step-Keeps false rest k = search allows_rules

  copy_step-Keeps :
      (dst : ℕ) (rest : Run K.State Bool) (chunk : Text)
      → Keeps P rest
      → Keeps P (elim chunk as (λ _. Run K.State Bool) [
        | [] ↦ pure true
        | c ∷ t ↦ (do
          size ← call (K.fwrite dst (c ∷ t))
          elim (size == length (c ∷ t)) [ true ↦ rest | false ↦ pure false ])
      ])
  copy_step-Keeps dst rest [] k = search allows_rules
  copy_step-Keeps dst rest (c ∷ t) k =
      Keeps-bind _ _ (fwrite-Keeps K P W a dst (c ∷ t))
        (λ size. chunk_step-Keeps (size == length (c ∷ t)) rest k)

  copy_bytes-Keeps : (fuel src dst : ℕ) → Keeps P (copy_bytes K fuel src dst)
  unfolding copy_bytes
  copy_bytes-Keeps zero src dst = search allows_rules
  copy_bytes-Keeps (suc fuel) src dst =
      Keeps-bind _ _ (fread-Keeps K P W a src chunk_size) (λ chunk.
        copy_step-Keeps dst (copy_bytes K fuel src dst) chunk (copy_bytes-Keeps fuel src dst))

  close_copy-Keeps :
      (p : Text) (src dst : ℕ) (whole : Bool) → W p → Keeps P (close_copy K p src dst whole)
  unfolding close_copy
  close_copy-Keeps p src dst whole w = search allows_rules depth 8

  copy_to-Keeps :
      (fuel : ℕ) (p : Text) (src : ℕ) (o : Option ℕ) → W p → Keeps P (copy_to K fuel p src o)
  unfolding copy_to
  copy_to-Keeps fuel p src none w = search allows_rules
  copy_to-Keeps fuel p src (some dst) w = search (allows_rules, copy_bytes-Keeps, close_copy-Keeps)

  copy_opened-Keeps : (fuel : ℕ) (p : Text) (o : Option ℕ) → W p → Keeps P (copy_opened K fuel p o)
  unfolding copy_opened
  copy_opened-Keeps fuel p none w = search allows_rules
  copy_opened-Keeps fuel p (some src) w = search (allows_rules, copy_to-Keeps)

  copy_content-Keeps : (fuel : ℕ) (p q : Text) → W q → Keeps P (copy_content K fuel p q)
  unfolding copy_content
  copy_content-Keeps fuel p q w = search (allows_rules, copy_opened-Keeps)

  move_file-Keeps : (fuel : ℕ) (p q : Text) → W p → W q → Keeps P (move_file K fuel p q)
  unfolding move_file
  move_file-Keeps fuel p q w x = search (allows_rules, copy_content-Keeps) depth 8

  move_kind-Keeps :
      (go : Text → Text → Run K.State Bool)
      → ((p q : Text) → W p → W q → Keeps P (go p q))
      → (fuel : ℕ) (p q : Text) (o : Option (Kind × ℕ)) → W p
      → W q
      → Keeps P (move_kind K go fuel p q o)
  unfolding move_kind
  move_kind-Keeps go k fuel p q none w x = search allows_rules
  move_kind-Keeps go k fuel p q (some (directory, mode)) w x =
      Keeps-bind _ _ (opendir-Keeps K P W a p) (λ names.
        Keeps-bind _ _ (into_directory-Keeps K P W W a a.below go k p q mode names w x)
          (λ moved. search (allows_rules, remove_file_or_directory-Keeps)))
  move_kind-Keeps go k fuel p q (some (regular, mode)) w x = move_file-Keeps fuel p q w x
  move_kind-Keeps go k fuel p q (some (other, mode)) w x = move_file-Keeps fuel p q w x

  -- Moving keeps what every call keeps that changes only the source, the destination, and what
  -- lies below them.
  pub move_directory-Keeps :
      (depth fuel : ℕ) (p q : Text) → W p → W q → Keeps P (move_directory K depth fuel p q)
  unfolding move_directory
  move_directory-Keeps zero fuel p q w x = search allows_rules
  move_directory-Keeps (suc depth) fuel p q w x = Keeps-bind _ _ (stat-Keeps K P W a p) (λ found.
      move_kind-Keeps (move_directory K depth fuel) (move_directory-Keeps depth fuel) fuel p q found
        w x)

  copy_regular-Keeps :
      (fuel : ℕ) (p q : Text) (mode : ℕ) → W q → Keeps P (copy_regular K fuel p q mode)
  unfolding copy_regular
  copy_regular-Keeps fuel p q mode x = search (allows_rules, copy_content-Keeps) depth 8

  copy_kind-Keeps :
      (go : Text → Text → Run K.State Bool)
      → ((p q : Text) → Unit {0} → W q → Keeps P (go p q))
      → (fuel : ℕ) (p q : Text) (o : Option (Kind × ℕ)) → W q
      → Keeps P (copy_kind K go fuel p q o)
  unfolding copy_kind
  copy_kind-Keeps go k fuel p q none x = search allows_rules
  copy_kind-Keeps go k fuel p q (some (regular, mode)) x = copy_regular-Keeps fuel p q mode x
  copy_kind-Keeps go k fuel p q (some (directory, mode)) x =
      Keeps-bind _ _ (opendir-Keeps K P W a p)
        (λ names. into_directory-Keeps K P W (λ _. Unit) a (λ _ _ _. tt) go k p q mode names tt x)
  copy_kind-Keeps go k fuel p q (some (other, mode)) x = search allows_rules

  pub copy_file-Keeps : (depth fuel : ℕ) (p q : Text) → W q → Keeps P (copy_file K depth fuel p q)
  unfolding copy_file
  copy_file-Keeps zero fuel p q x = search allows_rules
  copy_file-Keeps (suc depth) fuel p q x = Keeps-bind _ _ (stat-Keeps K P W a p) (λ found.
      copy_kind-Keeps (copy_file K depth fuel) (λ p' q' _ x'. copy_file-Keeps depth fuel p' q' x')
        fuel p q found x)

module _ (K : Calls) (P : K.State → Type 0) (W : Text → Type 0) (a : Allows K P W) (depth fuel : ℕ)
    (p q : Text) (s : K.State) where
  -- Copying keeps a property of states that every call keeps, where a call that changes a path
  -- has to keep it for allowed paths only, if the destination is allowed, and with a path the
  -- names joined to it.
  pub copy_file_allowed : W q → P s → P (copy_file K depth fuel p q s).1
  copy_file_allowed w h = (copy_file-Keeps K P W a depth fuel p q w).at s h

  -- Moving keeps a property of states that every call keeps, where a call that changes a path has
  -- to keep it for allowed paths only, if the source and the destination are allowed, and with a
  -- path the names joined to it and what nftw visits in it.
  pub move_directory_allowed : W p → W q → P s → P (move_directory K depth fuel p q s).1
  move_directory_allowed v w h = (move_directory-Keeps K P W a depth fuel p q v w).at s h
