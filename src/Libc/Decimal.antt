-- ===== src/Libc/Decimal.antt =====
-- printf's %d with a width, and %s with one.
use system_sw_gui_project.Prelude.{
  ℕ, zero, suc, ap, true, ◌+◌, ◌-◌, ◌*◌, ◌/◌, ◌%◌, ◌^◌, ◌<◌, ◌≡◌, [], ◌∷◌, ◌++◌, ltb, if◌then◌else◌,
  length, Text, ℤ, pos, negsuc, arith,
}
use native.Mathlib.Nat.{pow-suc}
use system_sw_gui_project.Libc.Numbers.{read_digits, is_digit}

-- The digits of n, at most `rounds` of them, before `out`.
unfoldable pub digits : ℕ → ℕ → Text → Text
digits zero n out = out
digits (suc rounds) n out =
    let rest = digits rounds (n / 10) ((b'0' + n % 10) ∷ out) in
    if ltb n 10 then (b'0' + n) ∷ out else rest

-- A 64-bit number has at most 20 digits.
unfoldable pub decimal : ℕ → Text
unfolding digits
decimal n = digits 20 n []

unfoldable pub signed : ℤ → Text
unfolding decimal
signed (pos n) = decimal n
signed (negsuc n) = b'-' ∷ decimal (suc n)

unfoldable pub repeat : ℕ → ℕ → Text
repeat zero c = []
repeat (suc n) c = c ∷ repeat n c

-- %5s and %-5s
unfoldable pub pad_left : ℕ → Text → Text
unfolding repeat
pad_left width s = repeat (width - length s) b' ' ++ s

unfoldable pub pad_right : ℕ → Text → Text
unfolding repeat
pad_right width s = s ++ repeat (width - length s) b' '

-- %02d; a negative number has two characters at least.
unfoldable pub two_digits : ℤ → Text
unfolding repeat signed
two_digits z = repeat (2 - length (signed z)) b'0' ++ signed z

-- The conversion of a number to a 32-bit int.
unfoldable pub to_int : ℕ → ℤ
to_int n = let m = n % 2 ^ 32 in if ltb m (2 ^ 31) then pos m else negsuc (2 ^ 32 - 1 - m)

digit-is_digit : (d : ℕ) → d < 10 → is_digit (b'0' + d) ≡ true
digit-is_digit d h = ground arith

read_digits-digit :
    (acc d : ℕ) (out : Text)
    → d < 10
    → read_digits 10 is_digit acc ((b'0' + d) ∷ out) ≡ read_digits 10 is_digit (acc * 10 + d) out
unfolding read_digits
read_digits-digit acc d out h = ground arith

tenth_small : (rounds n : ℕ) → n < 10 ^ suc rounds → n / 10 < 10 ^ rounds
tenth_small rounds n h =
    let e : 10 ^ suc rounds ≡ 10 * 10 ^ rounds = omega (arith, pow-suc 10 rounds) in
    omega (arith, e, h)

-- Reading the digits back, whatever follows them.
pub read_digits-digits :
    (rounds n : ℕ) (out : Text)
    → n < 10 ^ rounds
    → read_digits 10 is_digit 0 (digits rounds n out) ≡ read_digits 10 is_digit n out
unfolding digits
read_digits-digits zero n out h =
    let e : 0 ≡ n = omega arith in ap (λ m. read_digits 10 is_digit m out) e
read_digits-digits (suc rounds) n out h =
    let ih = read_digits-digits rounds (n / 10) ((b'0' + n % 10) ∷ out) (tenth_small rounds n h) in
    ground (arith, ih, read_digits-digit 0 n out, read_digits-digit (n / 10) (n % 10) out)
