-- ===== src/Backend/Losses.antt =====
-- Where the content of a file is while backend.c copies or moves it.
pub mod Copies
pub mod Moves
use system_sw_gui_project.Prelude.{
  ℕ, zero, suc, ◌≡◌, ◌≢◌, ◌⊎◌, inl, inr, refl, sym, ap, ◌∙◌, Bool, true, false, Option, none, some,
  List, [], ◌∷◌, ◌++◌, ◌==◌, if◌then◌else◌, Text, String, length, append_assoc, append-nil,
  Option-cases, Bool-cases, arith,
}
use system_sw_gui_project.Run.{
  Outcome, done, exited, crashed, out_of_fuel, Run, continue, pure, starve, call, ◌>>=◌,
}
use system_sw_gui_project.Backend.Calls.{Calls, Kind, regular, directory, other, Message, note}
use system_sw_gui_project.Backend.Files.{
  chunk_size, copy_bytes, close_copy, copy_to, copy_opened, copy_content, move_file, move_kind,
  move_directory,
}

-- `settled` is what is in a regular file that no open stream writes to, `pending` what is in one
-- together with the bytes in the buffer of its stream, `left` what is still to be read from a
-- stream and `target` the path of a stream that is written. `failed` says whether an error of input
-- or output has happened: fread may then stop before the end, and a file may lack the bytes that
-- a buffer had. `apart` holds of two paths that lead to two files, not through links to one.
pub record Contents (K : Calls) : Type 0 where
  pub settled : K.State → Text → Option Text
  pub pending : K.State → Text → Option Text
  pub left : K.State → ℕ → Text
  pub target : K.State → ℕ → Option Text
  pub failed : K.State → Bool
  pub apart : Text → Text → Bool
  pub stat_settled : (p q : Text) (s : K.State) → settled (K.stat p s).1 q ≡ settled s q
  pub stat_directory :
      (p : Text) (s : K.State) (mode : ℕ)
      → (K.stat p s).0 ≡ some (directory, mode)
      → settled s p ≡ none
  pub renamed :
      (p q t : Text) (s : K.State)
      → (K.rename p q s).0 ≡ true
      → settled s p ≡ some t
      → pending (K.rename p q s).1 q ≡ some t
  pub not_renamed :
      (p q r : Text) (s : K.State)
      → (K.rename p q s).0 ≡ false
      → settled (K.rename p q s).1 r ≡ settled s r
  pub unlinked_settled :
      (p q : Text) (s : K.State) → apart p q ≡ true → settled (K.unlink p s).1 q ≡ settled s q
  pub unlinked_pending :
      (p q : Text) (s : K.State) → apart p q ≡ true → pending (K.unlink p s).1 q ≡ pending s q
  pub unlinked_failed : (p : Text) (s : K.State) → failed s ≡ true → failed (K.unlink p s).1 ≡ true
  pub opened :
      (p : Text) (s : K.State) (f : ℕ) (t : Text)
      → (K.fopen_read p s).0 ≡ some f
      → settled s p ≡ some t
      → left (K.fopen_read p s).1 f ≡ t
  pub opened_settled : (p q : Text) (s : K.State) → settled (K.fopen_read p s).1 q ≡ settled s q
  pub created :
      (p : Text) (s : K.State) (g : ℕ)
      → (K.fopen_write p s).0 ≡ some g
      → (pending (K.fopen_write p s).1 p ≡ some []) × (target (K.fopen_write p s).1 g ≡ some p)
  pub created_settled :
      (p q t : Text) (s : K.State)
      → apart p q ≡ true
      → settled s q ≡ some t
      → settled (K.fopen_write p s).1 q ≡ some t
  pub created_left : (p : Text) (s : K.State) (f : ℕ) → left (K.fopen_write p s).1 f ≡ left s f
  pub read :
      (f n : ℕ) (s : K.State) → (K.fread f (suc n) s).0 ++ left (K.fread f (suc n) s).1 f ≡ left s f
  pub read_end :
      (f n : ℕ) (s : K.State)
      → (K.fread f (suc n) s).0 ≡ []
      → (left s f ≡ []) ⊎ (failed (K.fread f (suc n) s).1 ≡ true)
  pub read_settled : (f n : ℕ) (q : Text) (s : K.State) → settled (K.fread f n s).1 q ≡ settled s q
  pub read_pending : (f n : ℕ) (q : Text) (s : K.State) → pending (K.fread f n s).1 q ≡ pending s q
  pub read_target : (f n g : ℕ) (s : K.State) → target (K.fread f n s).1 g ≡ target s g
  pub read_failed : (f n : ℕ) (s : K.State) → failed s ≡ true → failed (K.fread f n s).1 ≡ true
  pub wrote :
      (g : ℕ) (t old p : Text) (s : K.State)
      → target s g ≡ some p
      → pending s p ≡ some old
      → (K.fwrite g t s).0 ≡ length t
      → (pending (K.fwrite g t s).1 p ≡ some (old ++ t)) ⊎ (failed (K.fwrite g t s).1 ≡ true)
  pub wrote_settled :
      (g : ℕ) (t q : Text) (s : K.State) → settled (K.fwrite g t s).1 q ≡ settled s q
  pub wrote_left : (g : ℕ) (t : Text) (s : K.State) (f : ℕ) → left (K.fwrite g t s).1 f ≡ left s f
  pub wrote_target :
      (g : ℕ) (t : Text) (s : K.State) (h : ℕ) → target (K.fwrite g t s).1 h ≡ target s h
  pub wrote_failed :
      (g : ℕ) (t : Text) (s : K.State) → failed s ≡ true → failed (K.fwrite g t s).1 ≡ true
  pub closed_settled :
      (f : ℕ) (q t : Text) (s : K.State)
      → settled s q ≡ some t
      → settled (K.fclose f s).1 q ≡ some t
  pub closed_pending :
      (f : ℕ) (q : Text) (s : K.State)
      → (pending (K.fclose f s).1 q ≡ pending s q) ⊎ (failed (K.fclose f s).1 ≡ true)
  pub closed_failed : (f : ℕ) (s : K.State) → failed s ≡ true → failed (K.fclose f s).1 ≡ true

module _ (K : Calls) (c : Contents K) (src dst t : Text) where
  -- The file is where it was, or at its destination unless an error has happened.
  abbrev pub Here : K.State → Type 0
  Here s = c.settled s src ≡ some t

  abbrev pub There : K.State → Type 0
  There s = (c.pending s dst ≡ some t) ⊎ (c.failed s ≡ true)

  -- How a copy ends: the file is still there, and with true as the result the copy is whole.
  abbrev pub Copied : Outcome Bool × K.State → Type 0
  Copied (done true, s) = Here s × There s
  Copied (done false, s) = Here s
  Copied (exited n, s) = Here s
  Copied (crashed, s) = Here s
  Copied (out_of_fuel, s) = Here s

  -- How a move ends: with true as the result the file is at its destination, otherwise at the
  -- source or there.
  abbrev pub Moved : Outcome Bool × K.State → Type 0
  Moved (done true, s) = There s
  Moved (done false, s) = Here s ⊎ There s
  Moved (exited n, s) = Here s ⊎ There s
  Moved (crashed, s) = Here s ⊎ There s
  Moved (out_of_fuel, s) = Here s ⊎ There s
