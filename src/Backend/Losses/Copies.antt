-- ===== src/Backend/Losses/Copies.antt =====
-- A copy of a file that is whole, or fails, in backend.c.
use system_sw_gui_project.Prelude.{
  ℕ, zero, suc, ◌≡◌, ◌⊎◌, inl, inr, refl, sym, ap, ◌∙◌, Bool, true, false, Option, none, some, [],
  ◌∷◌, ◌++◌, ◌==◌, Text, length, append_assoc, append-nil, arith,
}
use system_sw_gui_project.Run.{
  Outcome, done, exited, crashed, out_of_fuel, Run, continue, pure, starve, call, ◌>>=◌,
}
use system_sw_gui_project.Backend.Calls.{Calls}
use system_sw_gui_project.Backend.Files.{
  chunk_size, copy_bytes, close_copy, copy_to, copy_opened, copy_content,
}
use system_sw_gui_project.Backend.Losses.{Contents, Here, There, Copied}

module _ (K : Calls) (c : Contents K) (src dst t : Text) (apart : c.apart dst src ≡ true) where
  abbrev AtSource : K.State → Type 0
  AtSource = Here K c src dst t

  abbrev AtTarget : K.State → Type 0
  AtTarget = There K c src dst t

  abbrev CopyEnds : Outcome Bool × K.State → Type 0
  CopyEnds = Copied K c src dst t

  -- Within the loop: what was written and what is left make the file.
  record Going (f g : ℕ) (s : K.State) : Type 0 where
    at : c.target s g ≡ some dst
    sofar : Text
    written : c.pending s dst ≡ some sofar
    whole : sofar ++ c.left s f ≡ t

  abbrev Copying : ℕ → ℕ → K.State → Type 0
  Copying f g s = AtSource s × (Going f g s ⊎ (c.failed s ≡ true))

  -- One round, from the bytes that fread has returned on, and from what fwrite has returned on.
  write_step :
      (f g : ℕ) (s : K.State) (ok : Bool) (rest : Run K.State Bool)
      → (ok ≡ true → Copying f g s)
      → AtSource s
      → ((u : K.State) → Copying f g u → CopyEnds (rest u))
      → CopyEnds ((elim ok as (λ _. Run K.State Bool) [ true ↦ rest | false ↦ pure false ]) s)
  unfolding pure
  write_step f g s true rest k h ih = ih s (k refl)
  write_step f g s false rest k h ih = h

  eq_of_test : (m n : ℕ) → (m == n) ≡ true → m ≡ n
  eq_of_test m n e = ground arith

  chunk_step :
      (f g : ℕ) (s : K.State) (chunk : Text) (rest : Run K.State Bool)
      → (K.fread f chunk_size s).0 ≡ chunk
      → Copying f g s
      → ((u : K.State) → Copying f g u → CopyEnds (rest u))
      → CopyEnds (
          (elim chunk as (λ _. Run K.State Bool) [
            | [] ↦ pure true
            | x ∷ xs ↦ (do
              size ← call (K.fwrite g (x ∷ xs))
              elim (size == length (x ∷ xs)) [ true ↦ rest | false ↦ pure false ])
          ])
            (K.fread f chunk_size s).1)
  unfolding pure ◌>>=◌ call
  chunk_step f g s [] rest e (h, i) ih = (c.read_settled f chunk_size src s ∙ h, ended i)
    where
      ended : Going f g s ⊎ (c.failed s ≡ true) → AtTarget (K.fread f chunk_size s).1
      ended (inr bad) = inr (c.read_failed f chunk_size s bad)
      ended (inl i) = elim (c.read_end f 8191 s e) [
        | inr bad ↦ inr bad
        | inl none_left ↦ inl (
            c.read_pending f chunk_size dst s
            ∙ i.written
            ∙ ap some (sym (append-nil i.sofar) ∙ ap (λ r. i.sofar ++ r) (sym none_left) ∙ i.whole))
      ]
  chunk_step f g s (x ∷ xs) rest e (h, i) ih =
      let s' = (K.fread f chunk_size s).1 in
      let u = (K.fwrite g (x ∷ xs) s').1 in
      let here = c.wrote_settled g (x ∷ xs) src s' ∙ c.read_settled f chunk_size src s ∙ h in
      write_step f g u ((K.fwrite g (x ∷ xs) s').0 == length (x ∷ xs)) rest
        (λ full. (here, went i (eq_of_test _ _ full))) here ih
    where
      went :
          Going f g s ⊎ (c.failed s ≡ true)
          → (K.fwrite g (x ∷ xs) (K.fread f chunk_size s).1).0 ≡ length (x ∷ xs)
          → Going f g (K.fwrite g (x ∷ xs) (K.fread f chunk_size s).1).1
            ⊎ (c.failed (K.fwrite g (x ∷ xs) (K.fread f chunk_size s).1).1 ≡ true)
      went (inr bad) full = inr (c.wrote_failed g (x ∷ xs) _ (c.read_failed f chunk_size s bad))
      went (inl i) full =
          let s' = (K.fread f chunk_size s).1 in
          let now = c.read_target f chunk_size g s ∙ i.at in
          let old = c.read_pending f chunk_size dst s ∙ i.written in
          elim (c.wrote g (x ∷ xs) i.sofar dst s' now old full) [
            | inr bad ↦ inr bad
            | inl took ↦ inl (record {
              at = c.wrote_target g (x ∷ xs) s' g ∙ now;
              sofar = i.sofar ++ x ∷ xs;
              written = took;
              whole =
                  ap (λ r. (i.sofar ++ x ∷ xs) ++ r) (c.wrote_left g (x ∷ xs) s' f)
                  ∙ append_assoc i.sofar (x ∷ xs) (c.left s' f)
                  ∙ ap (λ r. i.sofar ++ r) (ap (λ r. r ++ c.left s' f) (sym e) ∙ c.read f 8191 s)
                  ∙ i.whole;
            })
          ]

  copy_bytes-Copied :
      (fuel f g : ℕ) (s : K.State) → Copying f g s → CopyEnds (copy_bytes K fuel f g s)
  unfolding copy_bytes starve ◌>>=◌ call
  copy_bytes-Copied zero f g s i = i.0
  copy_bytes-Copied (suc fuel) f g s i =
      chunk_step f g s (K.fread f chunk_size s).0 (copy_bytes K fuel f g) refl i
        (copy_bytes-Copied fuel f g)

  -- What follows a copy whose end is known.
  continue-Copied :
      (r : Outcome Bool) (next : Bool → Run K.State Bool) (s : K.State)
      → CopyEnds (r, s)
      → ((b : Bool) (u : K.State) → CopyEnds (done b, u) → CopyEnds (next b u))
      → CopyEnds (continue r next s)
  continue-Copied (done b) next s h k = k b s h
  continue-Copied (exited n) next s h k = h
  continue-Copied crashed next s h k = h
  continue-Copied out_of_fuel next s h k = h

  -- Closing a stream keeps both.
  closed_there : (f : ℕ) (s : K.State) → AtTarget s → AtTarget (K.fclose f s).1
  closed_there f s (inr bad) = inr (c.closed_failed f s bad)
  closed_there f s (inl there) = elim (c.closed_pending f dst s) [
    | inr bad ↦ inr bad
    | inl same ↦ inl (same ∙ there)
  ]

  close_copy-Copied :
      (f g : ℕ) (whole : Bool) (s : K.State)
      → CopyEnds (done whole, s)
      → CopyEnds (close_copy K dst f g whole s)
  unfolding close_copy ◌>>=◌ call pure
  close_copy-Copied f g true s (here, there) =
      let s' = (K.fclose f s).1 in
      (
        c.closed_settled g src t s' (c.closed_settled f src t s here),
        closed_there g s' (closed_there f s there),
      )
  close_copy-Copied f g false s here =
      let s' = (K.fclose f s).1 in
      c.unlinked_settled dst src (K.fclose g s').1 apart
      ∙ c.closed_settled g src t s' (c.closed_settled f src t s here)

  -- From the stream that fopen has returned for the destination.
  copy_to-Copied :
      (fuel f : ℕ) (o : Option ℕ) (s : K.State)
      → (K.fopen_write dst s).0 ≡ o
      → AtSource s
      → c.left s f ≡ t
      → CopyEnds (copy_to K fuel dst f o (K.fopen_write dst s).1)
  unfolding copy_to ◌>>=◌ call pure
  copy_to-Copied fuel f none s e h l =
      c.closed_settled f src t (K.fopen_write dst s).1 (c.created_settled dst src t s apart h)
  copy_to-Copied fuel f (some g) s e h l =
      let u = (K.fopen_write dst s).1 in
      let (written, at) = c.created dst s g e in
      continue-Copied (copy_bytes K fuel f g u).0 (close_copy K dst f g) (copy_bytes K fuel f g u).1
        (copy_bytes-Copied fuel f g u (
          c.created_settled dst src t s apart h,
          inl (record {
            at = at;
            sofar = [];
            written = written;
            whole = c.created_left dst s f ∙ l;
          }),
        ))
        (close_copy-Copied f g)

  copy_opened-Copied :
      (fuel : ℕ) (o : Option ℕ) (s : K.State)
      → (K.fopen_read src s).0 ≡ o
      → AtSource s
      → CopyEnds (copy_opened K fuel dst o (K.fopen_read src s).1)
  unfolding copy_opened ◌>>=◌ call pure
  copy_opened-Copied fuel none s e h = c.opened_settled src src s ∙ h
  copy_opened-Copied fuel (some f) s e h =
      let u = (K.fopen_read src s).1 in
      copy_to-Copied fuel f (K.fopen_write dst u).0 u refl (c.opened_settled src src s ∙ h)
        (c.opened src s f t e h)

  pub copy_content-Copied :
      (fuel : ℕ) (s : K.State) → AtSource s → CopyEnds (copy_content K fuel src dst s)
  unfolding copy_content ◌>>=◌ call
  copy_content-Copied fuel s h = copy_opened-Copied fuel (K.fopen_read src s).0 s refl h
