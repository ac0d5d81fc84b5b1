-- ===== src/Shell/Paths/Confine.antt =====
-- What is_valid_path accepts, and what it lets through.
use system_sw_gui_project.Prelude.{
  ℕ, ◌≡◌, ◌↔◌, ◌⊎◌, refl, ◌∙◌, ap, sym, true, false, List, [], ◌∷◌, ◌++◌, arith, inl, inr,
  Bool-cases, Text, codes, All, append-nil, append_assoc,
}
use system_sw_gui_project.Libc.Strings.{
  str_eq, starts_with-append, starts_with_rest, tokens, tokens-append, split_tokens,
  split_tokens-Free, Free,
}
use system_sw_gui_project.Shell.Paths.{
  is_slash, is_absolute, is_valid_path, entire_path, convert_to_absolute, base_path,
}
use system_sw_gui_project.Shell.Paths.Stack.{render, IsName, push, resolve}
use system_sw_gui_project.Shell.Paths.Canonical.{
  base_stack, base_stack-IsName, unstack, tokens-render, convert_to_absolute-resolve,
}

-- BASE_PATH itself, or a path below it.
abbrev pub IsInside : Text → Type 0
IsInside path = (path ≡ base_path) ⊎ ((r : Text) × (path ≡ base_path ++ b'/' ∷ r))

render-append : (top st : List Text) → render (top ++ st) ≡ render st ++ render top
render-append [] st = sym (append-nil (render st))
render-append (t ∷ top) st = rw (render-append top st) (append_assoc (render st) (render top) _)

unstack-append : (st ts rest : List Text) → unstack (unstack st ts) rest ≡ unstack ts (st ++ rest)
unstack-append [] ts rest = refl
unstack-append (t ∷ st) ts rest = unstack-append st (t ∷ ts) rest

unstack_rest : (ts rest : List Text) → unstack ts rest ≡ unstack ts [] ++ rest
unstack_rest [] rest = refl
unstack_rest (t ∷ ts) rest =
    unstack_rest ts (t ∷ rest)
    ∙ sym (append_assoc (unstack ts []) (t ∷ []) rest)
    ∙ ap (λ l. l ++ rest) (sym (unstack_rest ts (t ∷ [])))

-- A stack is its tokens, read back.
of_tokens : (st ts : List Text) → unstack st [] ≡ ts → st ≡ unstack ts []
of_tokens st ts e = sym (append-nil st) ∙ sym (unstack-append st [] []) ∙ ap (λ l. unstack l []) e

tokens-base_path :
    (r : Text)
    → tokens is_slash (base_path ++ r)
      ≡ codes "tmp" ∷ (codes "test" ++ (split_tokens is_slash r).0) ∷ (split_tokens is_slash r).1
unfolding tokens split_tokens
tokens-base_path r = refl

-- A canonical path is accepted exactly if its first name is `tmp` and its second begins with
-- the letters `test`.
pub is_valid_path-render :
    (st : List Text)
    → All IsName st
    → (is_valid_path (render st) ≡ true)
      ↔ ((top : List Text) × (w : Text) × (st ≡ top ++ ((codes "test" ++ w) ∷ codes "tmp" ∷ [])))
unfolding is_valid_path
is_valid_path-render st h = (
  (λ valid.
      let (r, e) = starts_with_rest (render st) base_path valid in
      let (w, ts) = split_tokens is_slash r in
      (
        unstack ts [],
        w,
        of_tokens st _ (sym (tokens-render st h) ∙ ap (tokens is_slash) e ∙ tokens-base_path r)
            ∙ unstack_rest ts _,
      )),
  λ (top, w, e). rw (e, render-append top, append_assoc) (starts_with-append base_path _),
)

convert_to_absolute-sibling :
    (w : Text)
    → Free is_slash w
    → convert_to_absolute base_path (codes "../test" ++ w) ≡ base_path ++ w
unfolding is_absolute tokens split_tokens resolve push str_eq
convert_to_absolute-sibling w f =
    convert_to_absolute-resolve base_stack (codes "../test" ++ w) base_stack-IsName
    ∙ rw (split_tokens-Free is_slash w f)

sibling-IsOutside : (c : ℕ) (w : Text) → Free is_slash (c ∷ w) → ¬ (IsInside (base_path ++ c ∷ w))
sibling-IsOutside c w f (inl e) = cc
sibling-IsOutside c w f (inr (r, e)) = ground arith

-- A sibling of BASE_PATH whose name only begins like it is accepted: `../test` and any further
-- letters lead to a path that passes the check and is not inside.
pub sibling_accepted :
    (c : ℕ) (w : Text)
    → Free is_slash (c ∷ w)
    → let path = convert_to_absolute base_path (codes "../test" ++ c ∷ w) in
      (path ≡ base_path ++ c ∷ w) × (is_valid_path path ≡ true) × ¬ (IsInside path)
unfolding is_valid_path
sibling_accepted c w f =
    let e = convert_to_absolute-sibling (c ∷ w) f in
    (
      e,
      rw e (starts_with-append base_path (c ∷ w)),
      λ inside. sibling-IsOutside c w f (rw e at inside),
    )

-- No token is `..`.
abbrev pub NoUp : List Text → Type 0
NoUp = All (λ t. str_eq t (codes "..") ≡ false)

resolve-NoUp : (st ts : List Text) → NoUp ts → (top : List Text) × (resolve st ts ≡ top ++ st)
unfolding resolve push
resolve-NoUp st [] h = ([], refl)
resolve-NoUp st (t ∷ ts) (k, h) = elim (Bool-cases (str_eq t (codes "."))) [
  | inl dot ↦ rw (k, dot) (resolve-NoUp st ts h)
  | inr name ↦
      let (top, e) = resolve-NoUp (t ∷ st) ts h in
      (top ++ t ∷ [], rw (k, name) (e ∙ sym (append_assoc top (t ∷ []) st)))
]

render-cons : (t : Text) (ts : List Text) → (r : Text) × (render (t ∷ ts) ≡ b'/' ∷ r)
render-cons t [] = (t, refl)
render-cons t (u ∷ ts) = let (r, e) = render-cons u ts in (r ++ b'/' ∷ t, ap (λ l. l ++ b'/' ∷ t) e)

below-IsInside : (top : List Text) → IsInside (base_path ++ render top)
below-IsInside [] = inl refl
below-IsInside (t ∷ top) = let (r, e) = render-cons t top in inr (r, ap (λ l. base_path ++ l) e)

-- A path that begins with a slash and has no `..` stays inside BASE_PATH, and is accepted.
pub absolute-IsInside :
    (current r : Text)
    → NoUp (tokens is_slash r)
    → let path = convert_to_absolute current (b'/' ∷ r) in
      IsInside path × (is_valid_path path ≡ true)
unfolding convert_to_absolute entire_path is_valid_path is_absolute
absolute-IsInside current r h =
    let (top, e) = resolve-NoUp base_stack (tokens is_slash r) h in
    let same : convert_to_absolute current (b'/' ∷ r) ≡ base_path ++ render top =
      convert_to_absolute-resolve [] (b'/' ∷ r) tt
      ∙ ap render (ap (resolve base_stack) (tokens-append is_slash [] r b'/' tt refl) ∙ e)
      ∙ render-append top base_stack in
    (rw same (below-IsInside top), rw same (starts_with-append base_path (render top)))
