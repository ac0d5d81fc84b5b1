-- ===== src/Libc/Scan.antt =====
-- The conversions of sscanf that the sources use.
use system_sw_gui_project.Prelude.{
  ℕ, zero, suc, ◌-◌, ◌%◌, ◌^◌, Bool, Option, none, some, [], ◌∷◌, if◌then◌else◌, Text, ℤ, pos,
  negsuc, neg_of,
}
use system_sw_gui_project.Libc.Numbers.{is_space, is_digit, skip_spaces, read_sign, read_digits}

-- A conversion takes characters off the text, or fails, which ends sscanf.
abbrev pub Scan : Type 0 → Type 0
Scan A = Text → Option (A × Text)

module _ {A B : Type 0} where
  abbrev pub resume : Option (A × Text) → (A → Scan B) → Option (B × Text)
  resume none f = none
  resume (some (a, rest)) f = f a rest

  infixl 10 ◌>>=◌ ◌>>◌
  unfoldable pub ◌>>=◌ : Scan A → (A → Scan B) → Scan B
  ◌>>=◌ m f s = resume (m s) f

  abbrev pub ◌>>◌ : Scan A → Scan B → Scan B
  m >> n = m >>= λ _. n

abbrev pub result : {A : Type 0} → A → Scan A
result a s = some (a, s)

-- One digit at least, behind a sign.
unfoldable pub digits_of : Bool → Text → Option (ℤ × Text)
digits_of negative [] = none
digits_of negative (c ∷ s) =
    if is_digit c
    then (let (value, rest) = read_digits 10 is_digit 0 (c ∷ s) in
        some (if negative then neg_of value else pos value, rest))
    else none

-- %d and %u, where the number fits.
unfoldable pub scan_int : Scan ℤ
unfolding digits_of
scan_int s = let (negative, rest) = read_sign (skip_spaces s) in digits_of negative rest

-- %lu: strtoul takes a sign as well.
abbrev pub to_ulong : ℤ → ℕ
to_ulong (pos n) = n % 2 ^ 64
to_ulong (negsuc n) = 2 ^ 64 - suc (n % 2 ^ 64)

-- %255s takes 255 characters at most, up to a blank.
unfoldable pub take_word : ℕ → Text → Text × Text
take_word zero s = ([], s)
take_word (suc n) [] = ([], [])
take_word (suc n) (c ∷ s) =
    let (word, rest) = take_word n s in if is_space c then ([], c ∷ s) else (c ∷ word, rest)

abbrev pub not_empty : Text × Text → Option (Text × Text)
not_empty ([], rest) = none
not_empty (c ∷ word, rest) = some (c ∷ word, rest)

unfoldable pub scan_word : ℕ → Scan Text
unfolding take_word
scan_word n s = not_empty (take_word n (skip_spaces s))

-- A blank of the format, then %*c.
abbrev pub first_char : Text → Option (ℕ × Text)
first_char [] = none
first_char (c ∷ s) = some (c, s)

unfoldable pub scan_char : Scan ℕ
scan_char s = first_char (skip_spaces s)
