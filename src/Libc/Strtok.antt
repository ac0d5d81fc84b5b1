-- ===== src/Libc/Strtok.antt =====
-- strtok call by call, and the list of all that it returns.
use system_sw_gui_project.Prelude.{
  ℕ, ◌<◌, ◌≤◌, ◌≡◌, refl, sym, ap, subst, ◌∙◌, Bool, true, false, Option, none, some, [], ◌∷◌,
  if◌then◌else◌, Bool-cases, inl, inr, Text, length, arith,
}
use system_sw_gui_project.Libc.Strings.{emit, split_tokens, tokens}

-- The token up to the next delimiter, and what stands behind that.
unfoldable pub cut : (ℕ → Bool) → Text → Text × Text
cut delim [] = ([], [])
cut delim (c ∷ s) =
    let (token, rest) = cut delim s in if delim c then ([], s) else (c ∷ token, rest)

abbrev pub null_if_empty : Text × Text → Option (Text × Text)
null_if_empty ([], rest) = none
null_if_empty (c ∷ token, rest) = some (c ∷ token, rest)

-- One call, on the text where the last one stopped.
unfoldable pub strtok : (ℕ → Bool) → Text → Option (Text × Text)
unfolding cut
strtok delim [] = none
strtok delim (c ∷ s) =
    let next = strtok delim s in if delim c then next else null_if_empty (cut delim (c ∷ s))

split_tokens-cut :
    (delim : ℕ → Bool) (s : Text)
    → split_tokens delim s ≡ ((cut delim s).0, tokens delim (cut delim s).1)
unfolding split_tokens cut tokens
split_tokens-cut delim [] = refl
split_tokens-cut delim (c ∷ s) = elim (Bool-cases (delim c)) [
  | inl e ↦ rw e refl
  | inr e ↦ rw e (ap (λ r. (c ∷ r.0, r.1)) (split_tokens-cut delim s))
]

cut-shorter : (delim : ℕ → Bool) (s : Text) → length (cut delim s).1 ≤ length s
unfolding cut
cut-shorter delim [] = omega arith
cut-shorter delim (c ∷ s) = elim (Bool-cases (delim c)) [
  | inl e ↦ rw e (omega arith)
  | inr e ↦ rw e (omega (arith, cut-shorter delim s))
]

-- The calls, one after the other.
abbrev pub Unrolled : (ℕ → Bool) → Text → Option (Text × Text) → Type 0
Unrolled delim s none = tokens delim s ≡ []
Unrolled delim s (some (token, rest)) =
    (tokens delim s ≡ token ∷ tokens delim rest) × (length rest < length s)

tokens_skip :
    (delim : ℕ → Bool) (c : ℕ) (s : Text) → delim c ≡ true → tokens delim (c ∷ s) ≡ tokens delim s
unfolding tokens split_tokens
tokens_skip delim c s e = rw e refl

tokens_token :
    (delim : ℕ → Bool) (c : ℕ) (s : Text)
    → delim c ≡ false
    → tokens delim (c ∷ s) ≡ (c ∷ (cut delim s).0) ∷ tokens delim (cut delim s).1
unfolding tokens split_tokens
tokens_token delim c s e = rw e (ap (λ r. emit (c ∷ r.0) r.1) (split_tokens-cut delim s))

Unrolled-skip :
    (delim : ℕ → Bool) (c : ℕ) (s : Text) (o : Option (Text × Text))
    → tokens delim (c ∷ s) ≡ tokens delim s
    → Unrolled delim s o
    → Unrolled delim (c ∷ s) o
Unrolled-skip delim c s none e u = e ∙ u
Unrolled-skip delim c s (some (token, rest)) e (u, l) = (e ∙ u, omega (arith, l))

strtok_skip :
    (delim : ℕ → Bool) (c : ℕ) (s : Text) → delim c ≡ true → strtok delim (c ∷ s) ≡ strtok delim s
unfolding strtok
strtok_skip delim c s e = rw e refl

strtok_token :
    (delim : ℕ → Bool) (c : ℕ) (s : Text)
    → delim c ≡ false
    → strtok delim (c ∷ s) ≡ some (c ∷ (cut delim s).0, (cut delim s).1)
unfolding strtok cut
strtok_token delim c s e = rw e refl

pub strtok-Unrolled : (delim : ℕ → Bool) (s : Text) → Unrolled delim s (strtok delim s)
unfolding strtok tokens split_tokens
strtok-Unrolled delim [] = refl
strtok-Unrolled delim (c ∷ s) = elim (Bool-cases (delim c)) [
  | inl e ↦
      subst (Unrolled delim (c ∷ s)) (sym (strtok_skip delim c s e))
        (Unrolled-skip delim c s _ (tokens_skip delim c s e) (strtok-Unrolled delim s))
  | inr e ↦
      subst (Unrolled delim (c ∷ s)) (sym (strtok_token delim c s e))
        (tokens_token delim c s e, omega (arith, cut-shorter delim s))
]
