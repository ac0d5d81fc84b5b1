-- ===== src/Shell/Paths/Stack.antt =====
-- What path_utils.c computes, over stacks of names instead of bytes: the top of the stack is the
-- last component of the path.
use system_sw_gui_project.Prelude.{
  ℕ, ◌≡◌, ◌≢◌, refl, Bool, true, false, List, [], ◌∷◌, ◌++◌, if◌then◌else◌, inl, inr, Bool-cases,
  Text, codes, All, take-length_append,
}
use system_sw_gui_project.Libc.Strings.{
  str_eq, strrchr, strrchr-append, tokens, tokens-IsToken, IsToken, Free,
}
use system_sw_gui_project.Shell.Paths.{
  is_slash, entire_path, cut_last, add_token, add_tokens, convert_to_absolute,
}

-- The path of a stack.
abbrev pub render : List Text → Text
render [] = []
render (t ∷ ts) = render ts ++ b'/' ∷ t

-- `..` drops the last name, but never the first one.
abbrev pub pop : List Text → List Text
pop [] = []
pop (t ∷ []) = t ∷ []
pop (t ∷ u ∷ ts) = u ∷ ts

-- A name that stands for itself: no `.`, no `..`, not empty, no slash.
abbrev pub IsName : Text → Type 0
IsName t = IsToken is_slash t × (str_eq t (codes "..") ≡ false) × (str_eq t (codes ".") ≡ false)

unfoldable pub push : List Text → Text → List Text
push ts t = if str_eq t (codes "..") then pop ts else if str_eq t (codes ".") then ts else t ∷ ts

unfoldable pub resolve : List Text → List Text → List Text
resolve stack [] = stack
resolve stack (t ∷ ts) = resolve (push stack t) ts

str_eq-nil : (t : Text) → t ≢ [] → str_eq t [] ≡ false
unfolding str_eq
str_eq-nil [] h = absurd (h refl)
str_eq-nil (c ∷ t) h = refl

append-ne-nil : (w s : Text) (c : ℕ) → w ++ c ∷ s ≢ []
append-ne-nil [] s c = λ h. cc
append-ne-nil (x ∷ w) s c = λ h. cc

cut_last-append : (w t : Text) → w ≢ [] → Free is_slash t → cut_last (w ++ b'/' ∷ t) ≡ w
unfolding cut_last
cut_last-append [] t h f = absurd (h refl)
cut_last-append (x ∷ w) t h f =
    rw (strrchr-append (x ∷ w) t b'/' f) (take-length_append (x ∷ w) (b'/' ∷ t))

cut_last-render :
    (ts : List Text) → All (IsToken is_slash) ts → cut_last (render ts) ≡ render (pop ts)
unfolding cut_last
cut_last-render [] h = unfold strrchr in refl
cut_last-render (t ∷ []) ((_, f), _) = rw (strrchr-append [] t b'/' f)
cut_last-render (t ∷ u ∷ ts) ((_, f), h) =
    cut_last-append (render (u ∷ ts)) t (append-ne-nil (render ts) u b'/') f

add_token-render :
    (ts : List Text) (t : Text)
    → All (IsToken is_slash) ts
    → IsToken is_slash t
    → add_token (render ts) t ≡ render (push ts t)
unfolding add_token push
add_token-render ts t h (e, _) = elim (Bool-cases (str_eq t (codes ".."))) [
  | inl up ↦ rw up (cut_last-render ts h)
  | inr down ↦
      rw (down, str_eq-nil t e)
        (elim (Bool-cases (str_eq t (codes "."))) [ inl dot ↦ rw dot | inr name ↦ rw name ])
]

pub pop-All : (P : Text → Type 0) (ts : List Text) → All P ts → All P (pop ts)
pop-All P [] h = h
pop-All P (t ∷ []) h = h
pop-All P (t ∷ u ∷ ts) h = h.1

stay-All :
    (P : Text → Type 0) (ts : List Text) (t : Text)
    → All P ts
    → P t
    → (stay : Bool) → All P (if stay then ts else t ∷ ts)
stay-All P ts t h p true = h
stay-All P ts t h p false = (p, h)

pub push-All : (P : Text → Type 0) (ts : List Text) (t : Text) → All P ts → P t → All P (push ts t)
unfolding push
push-All P ts t h p = elim (Bool-cases (str_eq t (codes ".."))) [
  | inl up ↦ rw up (pop-All P ts h)
  | inr down ↦ rw down (stay-All P ts t h p (str_eq t (codes ".")))
]

add_tokens-render :
    (stack ts : List Text)
    → All (IsToken is_slash) stack
    → All (IsToken is_slash) ts
    → add_tokens (render stack) ts ≡ render (resolve stack ts)
unfolding add_tokens resolve
add_tokens-render stack [] h k = refl
add_tokens-render stack (t ∷ ts) h (k, ks) =
    rw (add_token-render stack t h k)
      (add_tokens-render (push stack t) ts (push-All (IsToken is_slash) stack t h k) ks)

-- Shut: the byte loop of the source is the stack machine `resolve`.
pub convert_to_absolute-eq-render :
    (current relative : Text)
    → convert_to_absolute current relative
      ≡ render (resolve [] (tokens is_slash (entire_path current relative)))
unfolding convert_to_absolute
convert_to_absolute-eq-render current relative =
    add_tokens-render [] _ tt (tokens-IsToken is_slash (entire_path current relative))
