-- ===== src/Shell/Ps/Clock.antt =====
-- The CPU time that cmd_ps.c prints.
use system_sw_gui_project.Prelude.{
  ℕ, suc, ◌+◌, ◌-◌, ◌*◌, ◌/◌, ◌%◌, ◌<◌, ◌≤◌, ◌≡◌, refl, ap, ◌∙◌, Option, none, some, [], ◌∷◌, ◌++◌,
  Text, pos, arith,
}
use system_sw_gui_project.Libc.Strings.{truncate}
use system_sw_gui_project.Libc.Decimal.{digits, decimal, signed, repeat, two_digits, to_int}
use system_sw_gui_project.Shell.Ps.{time_str}
use native.Mathlib.Decide.{dec_lt}

digits_one : (rounds n : ℕ) (out : Text) → n < 10 → digits (suc rounds) n out ≡ (b'0' + n) ∷ out
unfolding digits
digits_one rounds n out h = ground arith

digits_two :
    (rounds n : ℕ) (out : Text)
    → 10 ≤ n
    → n < 100
    → digits (suc (suc rounds)) n out ≡ (b'0' + n / 10) ∷ (b'0' + n % 10) ∷ out
unfolding digits
digits_two rounds n out l h = ground (arith, digits_one rounds (n / 10) ((b'0' + n % 10) ∷ out))

-- A number below 100 in two digits.
abbrev pub pair : ℕ → Text → Text
pair n rest = (b'0' + n / 10) ∷ (b'0' + n % 10) ∷ rest

to_int_small : (n : ℕ) → n < 100 → to_int n ≡ pos n
unfolding to_int
to_int_small n h = ground arith

two_digits_small : (n : ℕ) → n < 100 → two_digits (pos n) ≡ pair n []
unfolding two_digits signed decimal repeat
two_digits_small n h = elim (dec_lt n 10) [
  | yes small ↦ rw (digits_one 19 n [] small) (ground arith)
  | no large ↦ rw (digits_two 18 n [] (omega arith) h) refl
]

int_two_digits : (n : ℕ) → n < 100 → two_digits (to_int n) ≡ pair n []
int_two_digits n h = ap two_digits (to_int_small n h) ∙ two_digits_small n h

-- Reading the time back: two digits, a colon, two digits, a colon, two digits.
abbrev pub number : ℕ → ℕ → ℕ
number a b = (a - b'0') * 10 + (b - b'0')

abbrev pub read_clock : Text → Option ℕ
read_clock (a ∷ b ∷ x ∷ c ∷ d ∷ y ∷ e ∷ f ∷ []) =
    some (number a b * 3600 + number c d * 60 + number e f)
read_clock _ = none

clock_text : (h m s : ℕ) → Text
clock_text h m s =
    truncate 11
      (two_digits (to_int h) ++ b':' ∷ two_digits (to_int m) ++ b':' ∷ two_digits (to_int s))

clock_text_small :
    (h m s : ℕ)
    → h < 100
    → m < 100
    → s < 100
    → clock_text h m s ≡ pair h (b':' ∷ pair m (b':' ∷ pair s []))
unfolding clock_text truncate
clock_text_small h m s hh mm ss =
    rw (int_two_digits h hh, int_two_digits m mm, int_two_digits s ss) refl

number_of : (n : ℕ) → n < 100 → number (b'0' + n / 10) (b'0' + n % 10) ≡ n
number_of n h = omega arith

-- Up to 99 hours, 59 minutes and 59 seconds, the time that ps prints is the CPU time in seconds.
pub read_clock-time_str : (total : ℕ) → total < 360000 → read_clock (time_str total) ≡ some total
unfolding time_str clock_text
read_clock-time_str total h =
    ap read_clock (
      clock_text_small (total / 3600) (total % 3600 / 60) (total % 60) (omega arith) (omega arith)
        (omega arith))
    ∙ ap some (omega arith)
