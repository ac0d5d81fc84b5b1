-- ===== src/Shell/Streams/Copy.antt =====
-- What the loops of cmd_cp.c and cmd_cat.c move, over streams that behave as stdio documents.
use system_sw_gui_project.Prelude.{
  ℕ, zero, suc, ◌≤◌, ◌<◌, ◌≡◌, ◌≢◌, refl, ap, ◌∙◌, sym, Bool, true, false, ◌⊎◌, Option, none, some,
  [], ◌∷◌, ◌++◌, ◌==◌, if◌then◌else◌, Text, length, take, drop, append_assoc, append-nil,
  Bool-cases, inl, inr, arith,
}
use system_sw_gui_project.Run.{Outcome, done, Run, call, ◌>>=◌, ◌>>◌, skip}
use system_sw_gui_project.Shell.Paths.Bounds.{bufsiz}
use system_sw_gui_project.Shell.System.{System, bytes, print}
use system_sw_gui_project.Shell.Streams.{copy_loop, cat_loop, is_eof, byte_of}

abbrev pub head? : Text → Option ℕ
head? [] = none
head? (c ∷ t) = some c

-- The bytes left in a stream that is read, those written to one that is written, and those on
-- the standard output, and the error indicator of a stream; and what each call does to them. An
-- fwrite that does not take all of its bytes sets the indicator. The two streams are different files.
pub record Stdio (S : System) : Type 0 where
  pub left : ℕ → S.State → Text
  pub written : ℕ → S.State → Text
  pub failed : ℕ → S.State → Bool
  pub shown : S.State → Text
  pub fread_bytes : (f n : ℕ) (s : S.State) → (S.fread f n s).0 ≡ take n (left f s)
  pub fread_left : (f n : ℕ) (s : S.State) → left f (S.fread f n s).1 ≡ drop n (left f s)
  pub fread_written : (f n g : ℕ) (s : S.State) → written g (S.fread f n s).1 ≡ written g s
  pub fwrite_written :
      (f : ℕ) (t : Text) (s : S.State)
      → (written f (S.fwrite f t s).1 ≡ written f s ++ t) ⊎ (failed f (S.fwrite f t s).1 ≡ true)
  pub fread_failed :
      (f n g : ℕ) (s : S.State) → failed g s ≡ true → failed g (S.fread f n s).1 ≡ true
  pub fwrite_failed :
      (f : ℕ) (t : Text) (s : S.State) → failed f s ≡ true → failed f (S.fwrite f t s).1 ≡ true
  pub fwrite_left :
      (f g : ℕ) (t : Text) (s : S.State) → f ≢ g → left g (S.fwrite f t s).1 ≡ left g s
  pub fgetc_byte : (f : ℕ) (s : S.State) → (S.fgetc f s).0 ≡ head? (left f s)
  pub fgetc_left : (f : ℕ) (s : S.State) → left f (S.fgetc f s).1 ≡ drop 1 (left f s)
  pub fgetc_shown : (f : ℕ) (s : S.State) → shown (S.fgetc f s).1 ≡ shown s
  pub output_shown : (t : Text) (s : S.State) → shown (S.output (bytes t) s).1 ≡ shown s ++ t
  pub output_left : (f : ℕ) (t : Text) (s : S.State) → left f (S.output (bytes t) s).1 ≡ left f s

pub take-append_drop : (n : ℕ) (t : Text) → take n t ++ drop n t ≡ t
take-append_drop zero t = refl
take-append_drop (suc n) [] = refl
take-append_drop (suc n) (c ∷ t) = ap (λ r. c ∷ r) (take-append_drop n t)

length-drop-lt : (n c : ℕ) (t r : Text) → take n t ≡ c ∷ r → length (drop n t) < length t
length-drop-lt zero c t r h = absurd (cc)
length-drop-lt (suc n) c [] r h = absurd (cc)
length-drop-lt (suc n) c (x ∷ t) r h = omega (arith, length-drop-le n t)
  where
    length-drop-le : (n : ℕ) (t : Text) → length (drop n t) ≤ length t
    length-drop-le zero t = omega arith
    length-drop-le (suc n) [] = omega arith
    length-drop-le (suc n) (c ∷ t) = omega (arith, length-drop-le n t)

take-nil : (n : ℕ) (t : Text) → take (suc n) t ≡ [] → t ≡ []
take-nil n [] h = refl
take-nil n (c ∷ t) h = absurd (cc)

module _ (S : System) (io : Stdio S) (src tar : ℕ) (apart : tar ≢ src) where
  abbrev Copied : S.State → Outcome (Unit {0}) × S.State → Type 0
  Copied s (r, s') =
      (r ≡ done tt)
      × ((io.written tar s' ≡ io.written tar s ++ io.left src s) ⊎ (io.failed tar s' ≡ true))
      × (io.failed tar s ≡ true → io.failed tar s' ≡ true)

  -- One round, from the bytes that fread returned on.
  copy_step :
      (fuel : ℕ) (s s' : S.State) (chunk : Text)
      → length (io.left src s) < suc fuel
      → chunk ≡ take bufsiz (io.left src s)
      → io.left src s' ≡ drop bufsiz (io.left src s)
      → io.written tar s' ≡ io.written tar s
      → (io.failed tar s ≡ true → io.failed tar s' ≡ true)
      → ((t : S.State) → length (io.left src t) < fuel → Copied t (copy_loop S fuel src tar t))
      → Copied s (
          (elim chunk as (λ _. Run S.State (Unit {0})) [
            | [] ↦ skip
            | c ∷ rest ↦ call (S.fwrite tar (c ∷ rest)) >> copy_loop S fuel src tar
          ])
            s')
  unfolding ◌>>=◌
  copy_step fuel s s' [] h e l w x ih = (
    refl,
    inl (
        w
        ∙ sym (append-nil (io.written tar s))
        ∙ ap (λ r. io.written tar s ++ r) (sym (take-nil 8191 (io.left src s) (sym e)))),
    x,
  )
  copy_step fuel s s' (c ∷ rest) h e l w x ih =
      let t = (S.fwrite tar (c ∷ rest) s').1 in
      let unread : io.left src t ≡ drop bufsiz (io.left src s) =
        io.fwrite_left tar src (c ∷ rest) s' apart ∙ l in
      let shorter = length-drop-lt bufsiz c (io.left src s) rest (sym e) in
      let (ends, total, stays) = ih t (rw unread (omega arith)) in
      (
        ends,
        elim total [
          | inr bad ↦ inr bad
          | inl good ↦ elim (io.fwrite_written tar (c ∷ rest) s') [
            | inr bad ↦ inr (stays bad)
            | inl took ↦ inl (
                good
                ∙ (λ i. (took ∙ ap (λ r. r ++ c ∷ rest) w) i ++ unread i)
                ∙ append_assoc (io.written tar s) (c ∷ rest) (drop bufsiz (io.left src s))
                ∙ ap (λ r. io.written tar s ++ (r ++ drop bufsiz (io.left src s))) e
                ∙ ap (λ r. io.written tar s ++ r) (take-append_drop bufsiz (io.left src s)))
          ]
        ],
        λ bad. stays (io.fwrite_failed tar (c ∷ rest) s' (x bad)),
      )

  copy_loop-Copied :
      (fuel : ℕ) (s : S.State)
      → length (io.left src s) < fuel
      → Copied s (copy_loop S fuel src tar s)
  unfolding copy_loop ◌>>=◌
  copy_loop-Copied zero s h = absurd (omega arith)
  copy_loop-Copied (suc fuel) s h =
      copy_step fuel s (S.fread src bufsiz s).1 (S.fread src bufsiz s).0 h
        (io.fread_bytes src bufsiz s) (io.fread_left src bufsiz s)
        (io.fread_written src bufsiz tar s) (io.fread_failed src bufsiz tar s)
        (copy_loop-Copied fuel)

  -- With more rounds than bytes left, the loop of copy_file ends, and either has written all that
  -- was left of the source behind what the target had, or the target's error indicator is set, at
  -- which the loop does not look.
  pub copy_loop-written :
      (fuel : ℕ) (s : S.State)
      → length (io.left src s) < fuel
      → ((copy_loop S fuel src tar s).0 ≡ done tt)
        × ((io.written tar (copy_loop S fuel src tar s).1 ≡ io.written tar s ++ io.left src s)
            ⊎ (io.failed tar (copy_loop S fuel src tar s).1 ≡ true))
  copy_loop-written fuel s h = let (ends, total, _) = copy_loop-Copied fuel s h in (ends, total)

-- The bytes before the first byte 255.
abbrev pub until_255 : Text → Text
until_255 [] = []
until_255 (c ∷ t) = let rest = c ∷ until_255 t in if c == 255 then [] else rest

module _ (S : System) (io : Stdio S) (file : ℕ) where
  abbrev Shown : S.State → Text → Outcome (Unit {0}) × S.State → Type 0
  Shown s text (r, s') = (r ≡ done tt) × (io.shown s' ≡ io.shown s ++ until_255 text)

  cat_step :
      (fuel : ℕ) (s s' : S.State) (text : Text)
      → length text < suc fuel
      → io.left file s' ≡ drop 1 text
      → io.shown s' ≡ io.shown s
      → ((t : S.State)
          → length (io.left file t) < fuel
          → Shown t (io.left file t) (cat_loop S fuel file t))
      → Shown s text (
          (elim (is_eof S (head? text)) as (λ _. Run S.State (Unit {0})) [
            | true ↦ skip
            | false ↦ print S (bytes (byte_of S (head? text))) >> cat_loop S fuel file
          ])
            s')
  unfolding is_eof ◌>>=◌ print
  cat_step fuel s s' [] h l w ih = (refl, w ∙ sym (append-nil (io.shown s)))
  cat_step fuel s s' (c ∷ text) h l w ih = elim (Bool-cases (c == 255)) [
    | inl end ↦ rw end (refl, w ∙ sym (append-nil (io.shown s)))
    | inr more ↦
        let t = (S.output (bytes (c ∷ [])) s').1 in
        let unread = io.output_left file (c ∷ []) s' ∙ l in
        let (ends, total) = ih t (rw unread (omega arith)) in
        rw more (
          ends,
          total
              ∙ (λ i.
                  (io.output_shown (c ∷ []) s' ∙ ap (λ r. r ++ c ∷ []) w) i ++ until_255 (unread i))
              ∙ append_assoc (io.shown s) (c ∷ []) (until_255 text),
        )
  ]

  -- With more rounds than bytes left, the loop of cmd_cat ends, and has shown what was left of the
  -- file up to its first byte 255.
  pub cat_loop-shown :
      (fuel : ℕ) (s : S.State)
      → length (io.left file s) < fuel
      → ((cat_loop S fuel file s).0 ≡ done tt)
        × (io.shown (cat_loop S fuel file s).1 ≡ io.shown s ++ until_255 (io.left file s))
  unfolding cat_loop ◌>>=◌
  cat_loop-shown zero s h = absurd (omega arith)
  cat_loop-shown (suc fuel) s h = rw (io.fgetc_byte file s) (
      cat_step fuel s (S.fgetc file s).1 (io.left file s) h (io.fgetc_left file s)
        (io.fgetc_shown file s) (cat_loop-shown fuel))
