-- ===== src/Shell/Paths/Canonical.antt =====
-- Absolute paths are canonical, and converting goes from canonical path to canonical path.
use system_sw_gui_project.Prelude.{
  ◌≡◌, ◌≢◌, refl, ◌∙◌, ap, sym, List, [], ◌∷◌, ◌++◌, ◌==◌, if◌then◌else◌, inl, inr, Bool-cases,
  ==_iff, Text, codes, All, append-nil, append_assoc,
}
use system_sw_gui_project.Libc.Strings.{
  str_eq, tokens, tokens-IsToken, tokens-append, IsToken, emit, split_tokens, tokens-Free,
}
use system_sw_gui_project.Shell.Paths.{is_slash, is_absolute, entire_path, convert_to_absolute}
use system_sw_gui_project.Shell.Paths.Stack.{
  render, IsName, push, resolve, pop-All, convert_to_absolute-eq-render,
}

-- The components of BASE_PATH, the top first.
abbrev pub base_stack : List Text
base_stack = codes "test" ∷ codes "tmp" ∷ []

-- The names of a stack, the bottom first, in front of other tokens.
abbrev pub unstack : List Text → List Text → List Text
unstack [] ts = ts
unstack (t ∷ st) ts = unstack st (t ∷ ts)

emit-token : (t : Text) (ts : List Text) → t ≢ [] → emit t ts ≡ t ∷ ts
emit-token [] ts h = absurd (h refl)
emit-token (c ∷ t) ts h = refl

pub tokens-render_rest :
    (st : List Text) (s : Text)
    → All IsName st
    → tokens is_slash (render st ++ b'/' ∷ s) ≡ unstack st (tokens is_slash s)
tokens-render_rest [] s h = unfold tokens split_tokens in refl
tokens-render_rest (t ∷ st) s (((e, f), _, _), h) = rw append_assoc (
    tokens-render_rest st (t ++ b'/' ∷ s) h
    ∙ ap (unstack st) (tokens-append is_slash t s b'/' f refl ∙ emit-token t _ e))

pub tokens-render : (st : List Text) → All IsName st → tokens is_slash (render st) ≡ unstack st []
tokens-render [] h = unfold tokens split_tokens in refl
tokens-render (t ∷ st) (((e, f), _, _), h) =
    tokens-render_rest st t h ∙ ap (unstack st) (tokens-Free is_slash t f ∙ emit-token t [] e)

push_name : (st : List Text) (t : Text) → IsName t → push st t ≡ t ∷ st
unfolding push
push_name st t (_, up, dot) = rw (up, dot)

resolve-unstack :
    (st acc ts : List Text) → All IsName st → resolve acc (unstack st ts) ≡ resolve (st ++ acc) ts
resolve-unstack [] acc ts h = refl
resolve-unstack (t ∷ st) acc ts (k, h) =
    resolve-unstack st acc (t ∷ ts) h
    ∙ unfold resolve in ap (λ r. resolve r ts) (push_name (st ++ acc) t k)

push-IsName :
    (st : List Text) (t : Text) → All IsName st → IsToken is_slash t → All IsName (push st t)
unfolding push
push-IsName st t h k = elim (Bool-cases (str_eq t (codes ".."))) [
  | inl up ↦ rw up (pop-All IsName st h)
  | inr down ↦ elim (Bool-cases (str_eq t (codes "."))) [
    | inl dot ↦ rw (down, dot) h
    | inr name ↦ rw (down, name) ((k, down, name), h)
  ]
]

pub resolve-IsName :
    (st ts : List Text) → All IsName st → All (IsToken is_slash) ts → All IsName (resolve st ts)
unfolding resolve
resolve-IsName st [] h k = h
resolve-IsName st (t ∷ ts) h (k, ks) = resolve-IsName (push st t) ts (push-IsName st t h k) ks

-- The directory that a path starts from: BASE_PATH if it begins with a slash, else the current
-- one.
abbrev pub start_stack : List Text → Text → List Text
start_stack st relative = if is_absolute relative then base_stack else st

pub base_stack-IsName : All IsName base_stack
unfolding str_eq
base_stack-IsName = (
  (((λ h. cc), (refl, (refl, (refl, (refl, tt))))), refl, refl),
  ((((λ h. cc), (refl, (refl, (refl, tt)))), refl, refl), tt),
)

resolve_below :
    (st : List Text) (s : Text)
    → All IsName st
    → resolve [] (tokens is_slash (render st ++ b'/' ∷ s)) ≡ resolve st (tokens is_slash s)
resolve_below st s h =
    ap (resolve []) (tokens-render_rest st s h)
    ∙ resolve-unstack st [] (tokens is_slash s) h
    ∙ ap (λ k. resolve k (tokens is_slash s)) (append-nil st)

resolve-entire_path :
    (st : List Text) (relative : Text)
    → All IsName st
    → resolve [] (tokens is_slash (entire_path (render st) relative))
      ≡ resolve (start_stack st relative) (tokens is_slash relative)
unfolding entire_path
resolve-entire_path st [] h = resolve_below st [] h
resolve-entire_path st (c ∷ r) h = elim (Bool-cases (c == b'/')) [
  | inl slash ↦
      rw (slash, (==_iff c b'/').0 slash)
        (resolve_below base_stack r base_stack-IsName
          ∙ ap (resolve base_stack) (sym (tokens-append is_slash [] r b'/' tt refl)))
  | inr other ↦ rw other (resolve_below st (c ∷ r) h)
]

-- From a canonical current directory the conversion reads the path's tokens as names to push
-- and `..` to pop, on the names of that directory or, for a path that begins with a slash, of
-- BASE_PATH.
pub convert_to_absolute-resolve :
    (st : List Text) (relative : Text)
    → All IsName st
    → convert_to_absolute (render st) relative
      ≡ render (resolve (start_stack st relative) (tokens is_slash relative))
convert_to_absolute-resolve st relative h =
    convert_to_absolute-eq-render (render st) relative
    ∙ ap render (resolve-entire_path st relative h)

-- Whatever the user writes, and wherever the shell stands, the converted path is canonical: it
-- is the path of a stack of names, none of them empty, `.`, `..` or with a slash in it.
pub convert_to_absolute-IsName :
    (current relative : Text)
    → (st : List Text) × (convert_to_absolute current relative ≡ render st) × All IsName st
convert_to_absolute-IsName current relative = (
  resolve [] (tokens is_slash (entire_path current relative)),
  convert_to_absolute-eq-render current relative,
  resolve-IsName [] _ tt (tokens-IsToken is_slash (entire_path current relative)),
)
