-- ===== src/Shell/ProcStat/Fields.antt =====
-- Which fields of the line the conversions of cmd_ps.c read.
use system_sw_gui_project.Prelude.{
  ◌==◌, ◌+◌, ◌*◌, ◌-◌, ℕ, zero, suc, ◌≤◌, ◌≡◌, ◌≢◌, refl, ap, ◌∙◌, Bool, true, false, none, some,
  [], ◌∷◌, ◌++◌, if◌then◌else◌, Text, ℤ, pos, neg_of, All, length, arith,
}
use system_sw_gui_project.Libc.Numbers.{is_space, is_digit, skip_spaces, read_sign, read_digits}
use system_sw_gui_project.Libc.Scan.{
  Scan, digits_of, scan_int, take_word, not_empty, scan_word, scan_char, ◌>>=◌, resume,
}
use system_sw_gui_project.Shell.ProcStat.{skip_five}

-- A number as it stands in the line: a sign and one digit at least.
pub record Numeral : Type 0 where
  pub minus : Bool
  pub first : ℕ
  pub more : Text

abbrev pub IsNumeral : Numeral → Type 0
IsNumeral n = All (λ c. is_digit c ≡ true) (n.first ∷ n.more)

abbrev pub spelled : Numeral → Text
spelled n = if n.minus then b'-' ∷ n.first ∷ n.more else n.first ∷ n.more

abbrev pub value : Numeral → ℤ
value n =
    let v = (read_digits 10 is_digit 0 (n.first ∷ n.more)).0 in if n.minus then neg_of v else pos v

abbrev pub digit_first : Text → Bool
digit_first [] = false
digit_first (c ∷ s) = is_digit c

read_digits-append :
    (acc : ℕ) (ds rest : Text)
    → All (λ c. is_digit c ≡ true) ds
    → digit_first rest ≡ false
    → read_digits 10 is_digit acc (ds ++ rest) ≡ ((read_digits 10 is_digit acc ds).0, rest)
unfolding read_digits
read_digits-append acc [] [] a h = refl
read_digits-append acc [] (c ∷ rest) a h = rw h refl
read_digits-append acc (d ∷ ds) rest (e, a) h =
    rw (e) (read_digits-append (acc * 10 + (d - b'0')) ds rest a h)

digit-not_space : (c : ℕ) → is_digit c ≡ true → is_space c ≡ false
digit-not_space c h = ground arith

digit-not_sign : (c : ℕ) (s : Text) → is_digit c ≡ true → read_sign (c ∷ s) ≡ (false, c ∷ s)
unfolding read_sign
digit-not_sign c s h = ground arith

digits_of-append :
    (minus : Bool) (d : ℕ) (ds rest : Text)
    → All (λ c. is_digit c ≡ true) (d ∷ ds)
    → digit_first rest ≡ false
    → digits_of minus (d ∷ ds ++ rest)
      ≡ some (value (record { minus = minus; first = d; more = ds }), rest)
unfolding digits_of
digits_of-append minus d ds rest (e, a) h = rw e (
    ap (λ r. some (if minus then neg_of r.0 else pos r.0, r.1))
      (read_digits-append 0 (d ∷ ds) rest (e, a) h))

read_int-minus : (s : Text) → scan_int (b'-' ∷ s) ≡ digits_of true s
unfolding scan_int skip_spaces read_sign
read_int-minus s = refl

pub read_int-digit :
    (d : ℕ) (s : Text) → is_digit d ≡ true → scan_int (d ∷ s) ≡ digits_of false (d ∷ s)
unfolding scan_int skip_spaces
read_int-digit d s e = rw (digit-not_space d e, digit-not_sign d s e) refl

pub read_int-space : (s : Text) → scan_int (b' ' ∷ s) ≡ scan_int s
unfolding scan_int skip_spaces
read_int-space s = refl

-- What follows the number does not go on with digits.
pub scan_int-spelled :
    (n : Numeral) (rest : Text)
    → IsNumeral n
    → digit_first rest ≡ false
    → scan_int (spelled n ++ rest) ≡ some (value n, rest)
scan_int-spelled n rest a h = by_sign n.minus n.first n.more a
  where
    by_sign :
        (minus : Bool) (d : ℕ) (ds : Text)
        → All (λ c. is_digit c ≡ true) (d ∷ ds)
        → scan_int (spelled (record { minus = minus; first = d; more = ds }) ++ rest)
          ≡ some (value (record { minus = minus; first = d; more = ds }), rest)
    by_sign true d ds b = read_int-minus _ ∙ digits_of-append true d ds rest b h
    by_sign false d ds b = read_int-digit d _ b.0 ∙ digits_of-append false d ds rest b h

module _ {A B : Type 0} where
  pub bind_some :
      (m : Scan A) (f : A → Scan B) (s : Text) (a : A) (rest : Text)
      → m s ≡ some (a, rest)
      → (m >>= f) s ≡ f a rest
  unfolding ◌>>=◌
  bind_some m f s a rest e = ap (λ o. resume o f) e

  pub bind_none : (m : Scan A) (f : A → Scan B) (s : Text) → m s ≡ none → (m >>= f) s ≡ none
  unfolding ◌>>=◌
  bind_none m f s e = ap (λ o. resume o f) e

-- A number and the blank before it, taken off the line.
unfoldable pub spaced : Numeral → Text → Text
spaced n rest = b' ' ∷ spelled n ++ rest

module _ {B : Type 0} where
  pub int_step :
      (f : ℤ → Scan B) (n : Numeral) (rest : Text)
      → IsNumeral n
      → digit_first rest ≡ false
      → (scan_int >>= f) (spaced n rest) ≡ f (value n) rest
  unfolding spaced
  int_step f n rest a h =
      bind_some scan_int f _ (value n) rest (read_int-space _ ∙ scan_int-spelled n rest a h)

pub spaced-digit_first : (n : Numeral) (rest : Text) → digit_first (spaced n rest) ≡ false
unfolding spaced
spaced-digit_first n rest = refl

pub skip_five-spaced :
    (n₁ n₂ n₃ n₄ n₅ : Numeral) (rest : Text)
    → All IsNumeral (n₁ ∷ n₂ ∷ n₃ ∷ n₄ ∷ n₅ ∷ [])
    → digit_first rest ≡ false
    → skip_five (spaced n₁ (spaced n₂ (spaced n₃ (spaced n₄ (spaced n₅ rest)))))
      ≡ some (value n₅, rest)
unfolding skip_five
skip_five-spaced n₁ n₂ n₃ n₄ n₅ rest (a₁, (a₂, (a₃, (a₄, (a₅, _))))) h =
    int_step _ n₁ _ a₁ (spaced-digit_first n₂ _)
    ∙ int_step _ n₂ _ a₂ (spaced-digit_first n₃ _)
    ∙ int_step _ n₃ _ a₃ (spaced-digit_first n₄ _)
    ∙ int_step _ n₄ _ a₄ (spaced-digit_first n₅ _)
    ∙ unfold spaced in read_int-space _ ∙ scan_int-spelled n₅ rest a₅ h

abbrev pub IsWord : ℕ → Text → Type 0
IsWord n w = (w ≢ []) × All (λ c. is_space c ≡ false) w × (length w ≤ n)

take_word-append :
    (n : ℕ) (w rest : Text)
    → All (λ c. is_space c ≡ false) w
    → length w ≤ n
    → take_word n (w ++ b' ' ∷ rest) ≡ (w, b' ' ∷ rest)
unfolding take_word
take_word-append zero [] rest a h = refl
take_word-append zero (c ∷ w) rest a h = absurd (omega (arith, h))
take_word-append (suc n) [] rest a h = refl
take_word-append (suc n) (c ∷ w) rest (e, a) h =
    rw (e, take_word-append n w rest a (omega (arith, h))) refl

pub scan_word-append :
    (n : ℕ) (w rest : Text)
    → IsWord n w
    → scan_word n (b' ' ∷ w ++ b' ' ∷ rest) ≡ some (w, b' ' ∷ rest)
unfolding scan_word skip_spaces
scan_word-append n [] rest (x, a, h) = absurd (x refl)
scan_word-append n (c ∷ w) rest (x, (e, a), h) =
    rw e (ap not_empty (take_word-append n (c ∷ w) rest (e, a) h))

pub scan_char-space :
    (c : ℕ) (rest : Text) → is_space c ≡ false → scan_char (b' ' ∷ c ∷ rest) ≡ some (c, rest)
unfolding scan_char skip_spaces
scan_char-space c rest e = rw e refl

pub scan_int-letter :
    (c : ℕ) (s : Text)
    → is_space c ≡ false
    → is_digit c ≡ false
    → (c == b'-') ≡ false
    → (c == b'+') ≡ false
    → scan_int (c ∷ s) ≡ none
unfolding scan_int skip_spaces read_sign digits_of
scan_int-letter c s e d m p = rw (e, m, p, d) refl
