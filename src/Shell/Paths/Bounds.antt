-- ===== src/Shell/Paths/Bounds.antt =====
-- The buffers of convert_to_absolute: `entire_path` of strlen(relative) + strlen(current) + 3
-- bytes, and the caller's `absolute_path` of BUFSIZ bytes.
use system_sw_gui_project.Prelude.{
  ℕ, zero, suc, ◌+◌, ◌≤◌, ◌≡◌, refl, List, [], ◌∷◌, ◌++◌, arith, inl, inr, Bool-cases, Text, codes,
  length, take, length-append, Option, none, some,
}
use system_sw_gui_project.Libc.Strings.{strrchr, tokens, split_tokens, emit}
use system_sw_gui_project.Run.{done, call, pure, ◌>>=◌}
use system_sw_gui_project.Shell.System.{System, convert, filled}
use system_sw_gui_project.Shell.Paths.{
  is_slash, is_absolute, entire_path, cut_at, cut_last, add_token, add_tokens, convert_to_absolute,
  base_path,
}

-- The bytes that tokens take when each is written behind a slash.
abbrev weight : List Text → ℕ
weight [] = 0
weight (t ∷ ts) = suc (length t) + weight ts

weight-emit : (t : Text) (ts : List Text) → weight (emit t ts) ≤ suc (length t) + weight ts
weight-emit [] ts = omega arith
weight-emit (c ∷ t) ts = omega arith

weight-split_tokens :
    (s : Text) → let (t, ts) = split_tokens is_slash s in length t + weight ts ≤ length s
unfolding split_tokens
weight-split_tokens [] = omega arith
weight-split_tokens (c ∷ s) =
    let (t, ts) = split_tokens is_slash s in
    elim (Bool-cases (is_slash c)) [
      | inl slash ↦ rw slash (omega (arith, weight-emit t ts, weight-split_tokens s))
      | inr other ↦ rw other (omega (arith, weight-split_tokens s))
    ]

length-take-le : (n : ℕ) (s : Text) → length (take n s) ≤ length s
length-take-le zero s = omega arith
length-take-le (suc n) [] = omega arith
length-take-le (suc n) (c ∷ s) = omega (arith, length-take-le n s)

length-cut_at : (s : Text) (o : Option ℕ) → length (cut_at s o) ≤ length s
unfolding cut_at
length-cut_at s none = omega arith
length-cut_at s (some zero) = omega arith
length-cut_at s (some (suc i)) = length-take-le (suc i) s

length-add_token : (a t : Text) → length (add_token a t) ≤ length a + suc (length t)
unfolding add_token cut_last
length-add_token a t = ground (arith, length-cut_at a (strrchr a b'/'), length-append a (b'/' ∷ t))

length-add_tokens : (a : Text) (ts : List Text) → length (add_tokens a ts) ≤ length a + weight ts
unfolding add_tokens
length-add_tokens a [] = omega arith
length-add_tokens a (t ∷ ts) =
    omega (arith, length-add_token a t, length-add_tokens (add_token a t) ts)

weight-tokens : (s : Text) → weight (tokens is_slash (b'/' ∷ s)) ≤ suc (length s)
unfolding tokens split_tokens
weight-tokens s =
    let (t, ts) = split_tokens is_slash s in omega (arith, weight-emit t ts, weight-split_tokens s)

entire_path_slash : (c relative : Text) → (s : Text) × (entire_path (b'/' ∷ c) relative ≡ b'/' ∷ s)
unfolding entire_path
entire_path_slash c relative = elim (Bool-cases (is_absolute relative)) [
  | inl slash ↦ (codes "tmp/test" ++ relative, rw slash)
  | inr other ↦ (c ++ b'/' ∷ relative, rw other)
]

length-entire_path :
    (current relative : Text)
    → length base_path ≤ length current + 2
    → length (entire_path current relative) + 1 ≤ length relative + length current + 3
unfolding entire_path
length-entire_path current relative h = elim (Bool-cases (is_absolute relative)) [
  | inl slash ↦ rw slash (omega (arith, length-append base_path relative))
  | inr other ↦ rw other (omega (arith, length-append current (b'/' ∷ relative)))
]

length-convert_to_absolute :
    (c relative : Text)
    → length (convert_to_absolute (b'/' ∷ c) relative) ≤ length (entire_path (b'/' ∷ c) relative)
unfolding convert_to_absolute
length-convert_to_absolute c relative =
    let (s, e) = entire_path_slash c relative in
    rw e (omega (arith, weight-tokens s, length-add_tokens [] (tokens is_slash (b'/' ∷ s))))

-- BUFSIZ of glibc.
abbrev pub bufsiz : ℕ
bufsiz = 8192

-- For a current directory that begins with a slash and is at most two bytes shorter than
-- BASE_PATH: if malloc gives every block that the joined text with its terminating zero fits in,
-- convert_to_absolute has its block and returns the converted path, which is no longer than the
-- joined text. If directory and argument also have at most BUFSIZ - 3 bytes together, the
-- converted path fits BUFSIZ bytes with its terminating zero.
pub convert_to_absolute_fits :
    (S : System) (buffer c relative : Text) (s : S.State)
    → (S.getcwd s).0 ≡ b'/' ∷ c
    → ((n : ℕ) (u : S.State)
        → length (entire_path (b'/' ∷ c) relative) + 1 ≤ n
        → (block : Text) × ((S.malloc n u).0 ≡ some block))
    → length base_path ≤ length (b'/' ∷ c) + 2
    → length (b'/' ∷ c) + length relative + 3 ≤ bufsiz
    → let current = b'/' ∷ c in
      ((convert S buffer relative s).0 ≡ done (convert_to_absolute current relative))
      × (length (convert_to_absolute current relative) ≤ length (entire_path current relative))
      × (length (convert_to_absolute current relative) + 1 ≤ bufsiz)
unfolding convert filled ◌>>=◌ call pure
convert_to_absolute_fits S buffer c relative s e memory h k =
    let fits = length-entire_path (b'/' ∷ c) relative h in
    let shorter = length-convert_to_absolute c relative in
    let (block, given) = memory (length relative + length (b'/' ∷ c) + 3) (S.getcwd s).1 fits in
    (rw (e, given) refl, shorter, omega arith)
