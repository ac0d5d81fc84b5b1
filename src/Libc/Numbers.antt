-- ===== src/Libc/Numbers.antt =====
-- strtol with base 8 and atoi, as the sources use them.
use system_sw_gui_project.Prelude.{
  ℕ, ◌+◌, ◌-◌, ◌*◌, ◌^◌, ◌%◌, Bool, true, false, ◌&&◌, ◌||◌, [], ◌∷◌, ◌==◌, ltb, leb, if◌then◌else◌,
  Text, ℤ, pos, neg_of,
}

-- isspace in the C locale
abbrev pub is_space : ℕ → Bool
is_space c = c == b' ' || leb 9 c && leb c 13

unfoldable pub skip_spaces : Text → Text
skip_spaces [] = []
skip_spaces (c ∷ s) = if is_space c then skip_spaces s else c ∷ s

abbrev pub is_octal : ℕ → Bool
is_octal c = leb b'0' c && leb c b'7'

-- isdigit
abbrev pub is_digit : ℕ → Bool
is_digit c = leb b'0' c && leb c b'9'

-- The value of the longest prefix of digits, and the rest.
unfoldable pub read_digits : ℕ → (ℕ → Bool) → ℕ → Text → ℕ × Text
read_digits base digit acc [] = (acc, [])
read_digits base digit acc (c ∷ s) =
    if digit c then read_digits base digit (acc * base + (c - b'0')) s else (acc, c ∷ s)

-- An optional sign: whether it is a minus, and the text behind it.
unfoldable pub read_sign : Text → Bool × Text
read_sign [] = (false, [])
read_sign (c ∷ s) =
    if c == b'-' then (true, s) else if c == b'+' then (false, s) else (false, c ∷ s)

unfoldable pub starts_octal : Text → Bool
starts_octal [] = false
starts_octal (c ∷ s) = is_octal c

-- strtol(s, &endptr, 8): the sign, the magnitude (clamped to a 64-bit long), `*endptr` onwards,
-- whether endptr moved from s, and whether errno was set to ERANGE.
pub record Strtol : Type 0 where
  pub negative : Bool
  pub magnitude : ℕ
  pub rest : Text
  pub moved : Bool
  pub range : Bool

unfoldable pub clamp : Bool → ℕ → Text → Strtol
clamp negative value rest =
    let limit : ℕ = if negative then 2 ^ 63 else 2 ^ 63 - 1 in
    if ltb limit value
    then record { negative = negative; magnitude = limit; rest = rest; moved = true; range = true }
    else record { negative = negative; magnitude = value; rest = rest; moved = true; range = false }

unfoldable pub strtol_octal : Text → Strtol
unfolding clamp starts_octal read_sign skip_spaces read_digits
strtol_octal s =
    let (negative, digits) = read_sign (skip_spaces s) in
    if starts_octal digits
    then (let (value, rest) = read_digits 8 is_octal 0 digits in clamp negative value rest)
    else record { negative = false; magnitude = 0; rest = s; moved = false; range = false }

-- The cast of a long to mode_t, an unsigned 32-bit number.
unfoldable pub to_mode : Strtol → ℕ
to_mode r = if r.negative then (2 ^ 32 - r.magnitude % 2 ^ 32) % 2 ^ 32 else r.magnitude % 2 ^ 32

-- atoi, where the value fits an int.
unfoldable pub atoi : Text → ℤ
unfolding read_sign skip_spaces read_digits
atoi s =
    let (negative, digits) = read_sign (skip_spaces s) in
    let (value, rest) = read_digits 10 is_digit 0 digits in
    if negative then neg_of value else pos value
