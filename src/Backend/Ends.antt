-- ===== src/Backend/Ends.antt =====
-- Copying and moving end: the recursion over directories is bounded by the lengths of paths, the
-- loop over a file by its bytes.
pub mod Trees
use system_sw_gui_project.Prelude.{
  ℕ, zero, suc, ◌+◌, ◌<◌, ◌≤◌, ◌≡◌, refl, Bool, true, false, Option, none, some, List, [], ◌∷◌,
  ◌++◌, ◌==◌, if◌then◌else◌, Text, length, length-append, ◌≢◌, arith, All,
}
use system_sw_gui_project.Libc.Strings.{truncate}
use system_sw_gui_project.Run.{Run, done, pure, call, ◌>>=◌, ◌>>◌}
use system_sw_gui_project.Run.Returns.{
  Returns, returns_rules, Returns-bind, Returns-call, ReturnsAt, ReturnsAt-call, ReturnsAt-bind,
}
use system_sw_gui_project.Backend.Calls.{Calls, Kind, regular, directory, other, note}
use system_sw_gui_project.Backend.Files.{
  chunk_size, is_dot, join, remove_callback, remove_all, remove_walked, remove_kind,
  remove_file_or_directory, copy_bytes, close_copy, copy_to, copy_opened, copy_content, each_entry,
  into_directory, move_file, move_kind, move_directory, copy_regular, copy_kind, copy_file,
}

-- A name that readdir returns is not empty.
abbrev pub Named : Option (List Text) → Type 0
Named none = Unit
Named (some names) = All (λ name. name ≢ []) names

abbrev pub Opened : ℕ → (ℕ → ℕ) → Option ℕ → Type 0
Opened fuel left none = Unit
Opened fuel left (some f) = left f < fuel

abbrev pub Shrunk : ℕ → ℕ → Text → Type 0
Shrunk before after [] = Unit
Shrunk before after (c ∷ s) = after < before

-- `left s f` bytes are still to be read from the stream f: fewer than `fuel` when it is opened,
-- and fewer after each chunk that is not empty; opening or writing the copy adds none. It is
-- a condition that stat finds no directory by a path of more than 4093 bytes: the kernel allows two
-- bytes more, and there join cuts the entry's name off. Directories have names in them.
pub record Finite (K : Calls) (fuel : ℕ) : Type 0 where
  pub left : K.State → ℕ → ℕ
  pub short :
      (p : Text) (s : K.State) (mode : ℕ)
      → (K.stat p s).0 ≡ some (directory, mode)
      → length p < 4094
  pub names : (p : Text) (s : K.State) → Named (K.opendir p s).0
  pub opened :
      (p : Text) (s : K.State) → Opened fuel (left (K.fopen_read p s).1) (K.fopen_read p s).0
  pub created : (p : Text) (s : K.State) (f : ℕ) → left (K.fopen_write p s).1 f ≤ left s f
  pub read :
      (f n : ℕ) (s : K.State) → Shrunk (left s f) (left (K.fread f n s).1 f) (K.fread f n s).0
  pub wrote : (f g : ℕ) (t : Text) (s : K.State) → left (K.fwrite g t s).1 f ≤ left s f

length-truncate : (n : ℕ) (s : Text) → length s < n → length (truncate n s) ≡ length s
unfolding truncate
length-truncate zero s h = omega arith
length-truncate (suc n) [] h = refl
length-truncate (suc n) (c ∷ s) h = omega (arith, length-truncate n s (omega arith))

truncate_min : (m n : ℕ) (s : Text) → m ≤ n → m ≤ length s → m ≤ length (truncate n s)
unfolding truncate
truncate_min zero n s h k = omega arith
truncate_min (suc m) zero s h k = omega arith
truncate_min (suc m) (suc n) [] h k = omega arith
truncate_min (suc m) (suc n) (c ∷ s) h k =
    omega (arith, truncate_min m n s (omega arith) (omega arith))

-- A joined path is longer than the directory's, if that is short.
pub join_grows : (p name : Text) → length p < 4094 → name ≢ [] → length p < length (join p name)
unfolding join
join_grows p name h k =
    truncate_min (suc (length p)) 4095 (p ++ b'/' ∷ name) (omega arith)
      (omega (arith, length-append p (b'/' ∷ name)))

module _ (K : Calls) (fuel₀ : ℕ) (h : Finite K fuel₀) where
  chunk_step-ReturnsAt :
      (whole : Bool) (rest : Run K.State Bool) (s : K.State)
      → ReturnsAt rest s
      → ReturnsAt (elim whole as (λ _. Run K.State Bool) [ true ↦ rest | false ↦ pure false ]) s
  unfolding pure
  chunk_step-ReturnsAt true rest s k = k
  chunk_step-ReturnsAt false rest s k = (false, refl)

  copy_step-ReturnsAt :
      (dst before after : ℕ) (rest : Run K.State Bool) (chunk : Text) (s : K.State)
      → Shrunk before after chunk
      → (after < before → (t : Text) → ReturnsAt rest (K.fwrite dst t s).1)
      → ReturnsAt
          (elim chunk as (λ _. Run K.State Bool) [
            | [] ↦ pure true
            | c ∷ t ↦ (do
              size ← call (K.fwrite dst (c ∷ t))
              elim (size == length (c ∷ t)) [ true ↦ rest | false ↦ pure false ])
          ])
          s
  unfolding pure
  copy_step-ReturnsAt dst before after rest [] s w k = (true, refl)
  copy_step-ReturnsAt dst before after rest (c ∷ t) s w k =
      ReturnsAt-call _ _ s (chunk_step-ReturnsAt _ rest _ (k w (c ∷ t)))

  copy_bytes-ReturnsAt :
      (fuel src dst : ℕ) (s : K.State)
      → h.left s src < fuel
      → ReturnsAt (copy_bytes K fuel src dst) s
  unfolding copy_bytes
  copy_bytes-ReturnsAt zero src dst s l = absurd (omega (arith, l))
  copy_bytes-ReturnsAt (suc fuel) src dst s l = ReturnsAt-call _ _ s (
      copy_step-ReturnsAt dst _ _ (copy_bytes K fuel src dst) _ _ (h.read src chunk_size s)
        (λ shrunk t.
          copy_bytes-ReturnsAt fuel src dst _
            (omega (arith, shrunk, l, h.wrote src dst t (K.fread src chunk_size s).1))))

  close_copy-Returns :
      (p : Text) (src dst : ℕ) (whole : Bool) → Returns (close_copy K p src dst whole)
  unfolding close_copy
  close_copy-Returns p src dst whole = search returns_rules depth 8

  copy_to-ReturnsAt :
      (p : Text) (src : ℕ) (o : Option ℕ) (s : K.State)
      → h.left s src < fuel₀
      → ReturnsAt (copy_to K fuel₀ p src o) s
  unfolding copy_to pure
  copy_to-ReturnsAt p src none s l = ReturnsAt-call _ _ s (false, refl)
  copy_to-ReturnsAt p src (some dst) s l =
      ReturnsAt-bind _ _ s (copy_bytes-ReturnsAt fuel₀ src dst s l) (close_copy-Returns p src dst)

  copy_opened-ReturnsAt :
      (p : Text) (o : Option ℕ) (s : K.State)
      → Opened fuel₀ (h.left s) o
      → ReturnsAt (copy_opened K fuel₀ p o) s
  unfolding copy_opened pure
  copy_opened-ReturnsAt p none s l = (false, refl)
  copy_opened-ReturnsAt p (some src) s l =
      ReturnsAt-call _ _ s (copy_to-ReturnsAt p src _ _ (omega (arith, l, h.created p s src)))

  pub copy_content-Returns : (p q : Text) → Returns (copy_content K fuel₀ p q)
  unfolding copy_content
  copy_content-Returns p q = record {
    at = λ s. ReturnsAt-call _ _ s (copy_opened-ReturnsAt q _ _ (h.opened p s));
  }
