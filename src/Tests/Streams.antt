-- ===== src/Tests/Streams.antt =====
-- Streams with a source, a target and a screen, and copies over them.
use system_sw_gui_project.Prelude.{
  ℕ, Bool, true, false, ◌⊎◌, inl, inr, ◌≡◌, refl, [], ◌∷◌, ◌++◌, Text, arith, take, drop, length,
}
use system_sw_gui_project.Run.{Op, done}
use system_sw_gui_project.Shell.System.{System, Output, bytes}
use system_sw_gui_project.Shell.Streams.{copy_loop, cat_loop}
use system_sw_gui_project.Shell.Streams.Copy.{Stdio, head?, copy_loop-written, cat_loop-shown}
use system_sw_gui_project.Tests.Systems.{inert}

record Files : Type 0 where
  source : Text
  target : Text
  screen : Text
  full : Bool

abbrev show : Output → Op Files (Unit {0})
show (bytes t) s = (tt, record s { screen = s.screen ++ t })
show _ s = (tt, s)

-- A full disk takes nothing.
abbrev write_full : Bool → Text → Op Files ℕ
write_full true t s = (0, s)
write_full false t s = (length t, record s { target = s.target ++ t })

write_full-took :
    (b : Bool) (t : Text) (s : Files)
    → s.full ≡ b
    → ((write_full b t s).1.target ≡ s.target ++ t) ⊎ ((write_full b t s).1.full ≡ true)
write_full-took true t s e = inr e
write_full-took false t s e = inl refl

write_full-stays :
    (b : Bool) (t : Text) (s : Files) → s.full ≡ true → (write_full b t s).1.full ≡ true
write_full-stays true t s e = e
write_full-stays false t s e = e

write_full-source : (b : Bool) (t : Text) (s : Files) → (write_full b t s).1.source ≡ s.source
write_full-source true t s = refl
write_full-source false t s = refl

abbrev files : System
files = record (inert Files) {
  output = show;
  fread = λ f n s. (take n s.source, record s { source = drop n s.source });
  fwrite = λ f t s. write_full s.full t s;
  fgetc = λ f s. (head? s.source, record s { source = drop 1 s.source });
}

files_stdio : Stdio files
files_stdio = record {
  left = λ f s. s.source;
  written = λ f s. s.target;
  failed = λ f s. s.full;
  shown = λ s. s.screen;
  fread_bytes = λ f n s. refl;
  fread_left = λ f n s. refl;
  fread_written = λ f n g s. refl;
  fread_failed = λ f n g s h. h;
  fwrite_written = λ f t s. write_full-took s.full t s refl;
  fwrite_failed = λ f t s h. write_full-stays s.full t s h;
  fwrite_left = λ f g t s h. write_full-source s.full t s;
  fgetc_byte = λ f s. refl;
  fgetc_left = λ f s. refl;
  fgetc_shown = λ f s. refl;
  output_shown = λ t s. refl;
  output_left = λ f t s. refl;
}

abbrev two_files : Files
two_files = record { source = 104 ∷ 255 ∷ 105 ∷ []; target = []; screen = []; full = false }

copy_loop-written_example :
    ((copy_loop files 4 3 5 two_files).0 ≡ done tt)
    × (((copy_loop files 4 3 5 two_files).1.target ≡ 104 ∷ 255 ∷ 105 ∷ [])
        ⊎ ((copy_loop files 4 3 5 two_files).1.full ≡ true))
unfolding files_stdio
copy_loop-written_example =
    copy_loop-written files files_stdio 3 5 (omega arith) 4 two_files (omega arith)

cat_loop-shown_example :
    ((cat_loop files 4 3 two_files).0 ≡ done tt)
    × ((cat_loop files 4 3 two_files).1.screen ≡ 104 ∷ [])
unfolding files_stdio
cat_loop-shown_example = cat_loop-shown files files_stdio 3 4 two_files (omega arith)
