-- ===== src/Client/Dialogs/Modes.antt =====
-- The mode that the dialog of on_chmod_action shows, through the request to the backend.
use system_sw_gui_project.Prelude.{
  ℕ, ◌+◌, ◌*◌, ◌/◌, ◌%◌, ◌^◌, ◌-◌, ◌<◌, ◌≡◌, refl, ap, ◌∙◌, true, false, [], ◌∷◌, Text, length,
  arith, ltb,
}
use system_sw_gui_project.Libc.Bits.{bit_and-le_right}
use system_sw_gui_project.Libc.Strings.{truncate, str_eq}
use system_sw_gui_project.Libc.Numbers.{
  Strtol, is_space, is_octal, skip_spaces, read_digits, read_sign, starts_octal, clamp,
  strtol_octal, to_mode,
}
use system_sw_gui_project.Run.{call, ◌>>=◌}
use system_sw_gui_project.Backend.Calls.{Calls}
use system_sw_gui_project.Backend.Requests.{change_mode, answer_changed}
use system_sw_gui_project.Client.Callbacks.{out_of_range}
use system_sw_gui_project.Client.Requests.{IsPart}
use system_sw_gui_project.Client.Dialogs.{three_octal, permission_bits, mode_text}

octal_digit : (d : ℕ) → d < 8 → (is_octal (b'0' + d) ≡ true) × (is_space (b'0' + d) ≡ false)
octal_digit d l = (ground arith, ground arith)

-- One more digit.
read_octal :
    (acc d : ℕ) (s : Text)
    → d < 8
    → read_digits 8 is_octal acc ((b'0' + d) ∷ s) ≡ read_digits 8 is_octal (acc * 8 + d) s
unfolding read_digits
read_octal acc d s l =
    rw (octal_digit d l).0 (ap (λ n. read_digits 8 is_octal (acc * 8 + n) s) (omega arith))

-- What strtol reads from three digits.
abbrev pub read : ℕ → Strtol
read m = record { negative = false; magnitude = m; rest = []; moved = true; range = false }

no_sign : (d : ℕ) (s : Text) → d < 8 → read_sign ((b'0' + d) ∷ s) ≡ (false, (b'0' + d) ∷ s)
unfolding read_sign
no_sign d s l = ground arith

clamp_small : (m : ℕ) → m < 512 → clamp false m [] ≡ read m
unfolding clamp
clamp_small m l = rw (small m l) refl
  where
    small : (m : ℕ) → m < 512 → ltb (2 ^ 63 - 1) m ≡ false
    small m l = ground arith

strtol_three :
    (a b c : ℕ)
    → a < 8
    → b < 8
    → c < 8
    → strtol_octal ((b'0' + a) ∷ (b'0' + b) ∷ (b'0' + c) ∷ []) ≡ read (a * 64 + b * 8 + c)
unfolding strtol_octal starts_octal skip_spaces
strtol_three a b c l m n = rw (octal_digit a l).1 (
    rw (no_sign a ((b'0' + b) ∷ (b'0' + c) ∷ []) l) (
      rw (octal_digit a l).0 (
        rw (octal_digit b m).0 (
          rw (octal_digit c n).0 (
            clamp_small (((0 + (b'0' + a - b'0')) * 8 + (b'0' + b - b'0')) * 8 + (b'0' + c - b'0'))
              (omega arith)
            ∙ ap read (omega arith))))))

pub mode_text-lt : (m : ℕ) → m < 512 → strtol_octal (mode_text m) ≡ read m
unfolding mode_text three_octal truncate
mode_text-lt m l =
    strtol_three (m / 64 % 8) (m / 8 % 8) (m % 8) (omega arith) (omega arith) (omega arith)
    ∙ ap read (omega arith)

pub permission_bits-lt : (st_mode : ℕ) → permission_bits st_mode < 512
unfolding permission_bits
permission_bits-lt st_mode = omega (arith, bit_and-le_right st_mode 0o777)

pub in_range : (m : ℕ) → m < 512 → out_of_range (read m) ≡ false
in_range m l = ground arith

pub mode_text-IsPart : (m : ℕ) → m < 512 → IsPart (mode_text m) × (length (mode_text m) ≡ 3)
unfolding mode_text three_octal truncate
mode_text-IsPart m l = (((λ e. cc e), (ground arith, (ground arith, (ground arith, tt)))), refl)

module _ (K : Calls) (depth fuel queue : ℕ) where
  pub change_read :
      (path t : Text) (m : ℕ)
      → m < 512
      → strtol_octal t ≡ read m
      → change_mode K depth fuel queue path t
        ≡ (call (K.chmod path m) >>= answer_changed K depth fuel queue)
  unfolding change_mode str_eq to_mode
  change_read path t m l e =
      rw e (ap (λ n. call (K.chmod path n) >>= answer_changed K depth fuel queue) (omega arith))
