-- ===== src/Libc/Strings.antt =====
-- <string.h> as the sources use it.
use system_sw_gui_project.Prelude.{
  ℕ, zero, suc, ◌≡◌, ◌≢◌, ◌↔◌, refl, Bool, true, false, ◌&&◌, Option, none, some, List, [], ◌∷◌,
  ◌++◌, arith, ◌==◌, if◌then◌else◌, inl, inr, Bool-cases, Text, length, All,
}

-- strcmp(s, t) == 0
unfoldable pub str_eq : Text → Text → Bool
str_eq [] [] = true
str_eq [] (d ∷ t) = false
str_eq (c ∷ s) [] = false
str_eq (c ∷ s) (d ∷ t) = (c == d) && str_eq s t

-- strncmp(s, prefix, strlen(prefix)) == 0
unfoldable pub starts_with : Text → Text → Bool
starts_with s [] = true
starts_with [] (d ∷ t) = false
starts_with (c ∷ s) (d ∷ t) = (c == d) && starts_with s t

-- The last index of a character, as strrchr(s, c) - s.
shift_index : Option ℕ → Bool → Option ℕ
shift_index (some i) here = some (suc i)
shift_index none true = some 0
shift_index none false = none

unfoldable pub strrchr : Text → ℕ → Option ℕ
unfolding shift_index
strrchr [] c = none
strrchr (x ∷ s) c = shift_index (strrchr s c) (x == c)

-- A token ends: an empty one is skipped.
abbrev pub emit : Text → List Text → List Text
emit [] ts = ts
emit (c ∷ t) ts = (c ∷ t) ∷ ts

-- The token under way at the front of a text, and the tokens behind it.
unfoldable pub split_tokens : (ℕ → Bool) → Text → Text × List Text
split_tokens delim [] = ([], [])
split_tokens delim (c ∷ s) =
    let (t, ts) = split_tokens delim s in if delim c then ([], emit t ts) else (c ∷ t, ts)

-- What strtok(s, delim), strtok(NULL, delim), ... return before the null pointer.
unfoldable pub tokens : (ℕ → Bool) → Text → List Text
unfolding split_tokens
tokens delim s = let (t, ts) = split_tokens delim s in emit t ts

-- strncpy of at most n bytes into a buffer of n + 1 whose last byte is set to zero.
unfoldable pub truncate : ℕ → Text → Text
truncate zero s = []
truncate (suc n) [] = []
truncate (suc n) (c ∷ s) = c ∷ truncate n s

pub str_eq_iff : (s t : Text) → (str_eq s t ≡ true) ↔ (s ≡ t)
unfolding str_eq
str_eq_iff [] [] = (λ _. refl, λ _. refl)
str_eq_iff [] (d ∷ t) = (λ h. cc, λ h. cc)
str_eq_iff (c ∷ s) [] = (λ h. cc, λ h. cc)
str_eq_iff (c ∷ s) (d ∷ t) = ground (arith, str_eq_iff s t)

pub starts_with-append : (p r : Text) → starts_with (p ++ r) p ≡ true
unfolding starts_with
starts_with-append [] r = refl
starts_with-append (d ∷ t) r = ground (arith, starts_with-append t r)

pub starts_with_rest : (s p : Text) → starts_with s p ≡ true → (r : Text) × (s ≡ p ++ r)
unfolding starts_with
starts_with_rest s [] h = (s, refl)
starts_with_rest [] (d ∷ t) h = absurd (cc)
starts_with_rest (c ∷ s) (d ∷ t) h =
    let (r, e) = starts_with_rest s t (ground arith) in (r, ground arith)

-- No character of the text is a delimiter.
abbrev pub Free : (ℕ → Bool) → Text → Type 0
Free delim = All (λ c. delim c ≡ false)

-- A text that ends in a delimiter and a token free of delimiters.
pub split_tokens-append :
    (delim : ℕ → Bool) (w s : Text) (c : ℕ)
    → Free delim w
    → delim c ≡ true
    → split_tokens delim (w ++ c ∷ s) ≡ (w, tokens delim s)
unfolding split_tokens tokens
split_tokens-append delim [] s c f h = rw h
split_tokens-append delim (x ∷ w) s c (fx, f) h = rw (split_tokens-append delim w s c f h, fx)

pub tokens-append :
    (delim : ℕ → Bool) (w s : Text) (c : ℕ)
    → Free delim w
    → delim c ≡ true
    → tokens delim (w ++ c ∷ s) ≡ emit w (tokens delim s)
unfolding tokens
tokens-append delim w s c f h = rw (split_tokens-append delim w s c f h)

pub split_tokens-Free :
    (delim : ℕ → Bool) (w : Text) → Free delim w → split_tokens delim w ≡ (w, [])
unfolding split_tokens
split_tokens-Free delim [] f = refl
split_tokens-Free delim (x ∷ w) (fx, f) = rw (split_tokens-Free delim w f, fx)

pub tokens-Free : (delim : ℕ → Bool) (w : Text) → Free delim w → tokens delim w ≡ emit w []
unfolding tokens
tokens-Free delim w f = rw (split_tokens-Free delim w f)

-- A token is not empty and has no delimiter in it.
abbrev pub IsToken : (ℕ → Bool) → Text → Type 0
IsToken delim t = (t ≢ []) × Free delim t

emit-IsToken :
    (delim : ℕ → Bool) (t : Text) (ts : List Text)
    → Free delim t
    → All (IsToken delim) ts
    → All (IsToken delim) (emit t ts)
emit-IsToken delim [] ts f h = h
emit-IsToken delim (c ∷ t) ts f h = (((λ e. cc), f), h)

split_tokens-IsToken :
    (delim : ℕ → Bool) (s : Text)
    → Free delim (split_tokens delim s).0 × All (IsToken delim) (split_tokens delim s).1
unfolding split_tokens
split_tokens-IsToken delim [] = (tt, tt)
split_tokens-IsToken delim (c ∷ s) =
    let (f, h) = split_tokens-IsToken delim s in
    elim (Bool-cases (delim c)) [
      | inl delimits ↦ rw delimits (tt, emit-IsToken delim _ _ f h)
      | inr plain ↦ rw plain ((plain, f), h)
    ]

pub tokens-IsToken : (delim : ℕ → Bool) (s : Text) → All (IsToken delim) (tokens delim s)
unfolding tokens
tokens-IsToken delim s = let (f, h) = split_tokens-IsToken delim s in emit-IsToken delim _ _ f h

-- A character that a text lacks is not found behind it, and the last one is.
strrchr-Free : (w : Text) (c : ℕ) → Free (λ x. x == c) w → strrchr w c ≡ none
unfolding strrchr
strrchr-Free [] c f = refl
strrchr-Free (x ∷ w) c (fx, f) = rw (strrchr-Free w c f, fx)

pub strrchr-append :
    (u w : Text) (c : ℕ) → Free (λ x. x == c) w → strrchr (u ++ c ∷ w) c ≡ some (length u)
unfolding strrchr
strrchr-append [] w c f = rw (strrchr-Free w c f) (ground arith)
strrchr-append (x ∷ u) w c f = rw (strrchr-append u w c f)
