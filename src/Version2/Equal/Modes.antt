-- ===== src/Version2/Equal/Modes.antt =====
-- chmod_format of both versions, an index into mode_str against recursion on the text.
use Prim.Native.Nat.{bit_and, bit_or}
use system_sw_gui_project.Prelude.{
  ℕ, zero, suc, ◌+◌, ◌<◌, ◌≤◌, ◌≡◌, ◌≢◌, refl, ap, ◌∙◌, Bool, false, Bool-cases, inl, inr, ◌&&◌,
  ◌||◌, [], ◌∷◌, ◌==◌, if◌then◌else◌, Text, length, drop, All, arith,
}
use system_sw_gui_project.Libc.Numbers.{is_octal, to_mode, strtol_octal}
use system_sw_gui_project.Shell
use system_sw_gui_project.Shell.Chmod.{
  read_who, who_bits, is_who, change_mode, what_bits, is_what, apply_what, apply_op, all_octal,
  matches_octal, symbolic_mode, bad_mode,
}
use system_sw_gui_project.Version2.Chmod.{
  char_at, class_loop, changed, kind_loop, from_op, chmod_format, octal_digits, is_octal_mode,
}

-- A C string has no zero in it.
abbrev pub IsCString : Text → Type 0
IsCString = All (λ c. c ≢ 0)

char_at-end : (s : Text) (i : ℕ) → drop i s ≡ [] → char_at s i ≡ 0
unfolding char_at
char_at-end [] i e = refl
char_at-end (c ∷ s) zero e = cc
char_at-end (c ∷ s) (suc i) e = char_at-end s i e

char_at-drop : (s : Text) (i c : ℕ) (t : Text) → drop i s ≡ c ∷ t → char_at s i ≡ c
unfolding char_at
char_at-drop [] zero c t e = cc
char_at-drop [] (suc i) c t e = cc
char_at-drop (x ∷ s) zero c t e = cc
char_at-drop (x ∷ s) (suc i) c t e = char_at-drop s i c t e

drop-suc : (s : Text) (i c : ℕ) (t : Text) → drop i s ≡ c ∷ t → drop (suc i) s ≡ t
drop-suc [] zero c t e = cc
drop-suc [] (suc i) c t e = cc
drop-suc (x ∷ s) zero c t e = cc
drop-suc (x ∷ s) (suc i) c t e = drop-suc s i c t e

drop_next : (s : Text) (i c : ℕ) (t : Text) → drop i s ≡ c ∷ t → drop (i + 1) s ≡ t
drop_next s i c t e =
    let next : i + 1 ≡ suc i = omega arith in ap (λ n. drop n s) next ∙ drop-suc s i c t e

not_zero : (c : ℕ) → c ≢ 0 → (c == 0) ≡ false
not_zero c h = ground arith

-- The first loop stops where read_who does, with the same permission.
class_loop-read_who :
    (fuel : ℕ) (s t : Text) (i permission : ℕ)
    → drop i s ≡ t
    → IsCString t
    → length t < fuel
    → (drop (class_loop fuel s i permission).0 s ≡ (read_who permission t).1)
      × ((class_loop fuel s i permission).1 ≡ (read_who permission t).0)
unfolding class_loop read_who
class_loop-read_who zero s t i permission e z l = absurd (omega (arith, l))
class_loop-read_who (suc fuel) s [] i permission e z l = rw (char_at-end s i e) (e, refl)
class_loop-read_who (suc fuel) s (c ∷ t) i permission e (z, zs) l =
    let here = char_at-drop s i c t e in
    elim (Bool-cases (is_who c)) [
      | inl w ↦
          rw (here, not_zero c z, w)
            (class_loop-read_who fuel s t (i + 1) (bit_or permission (who_bits c))
              (drop_next s i c t e) zs (omega (arith, l)))
      | inr w ↦ rw (here, not_zero c z, w) (e, refl)
    ]

-- The last loop.
kind_loop-apply_what :
    (fuel : ℕ) (s t : Text) (i permission op mode : ℕ)
    → drop i s ≡ t
    → IsCString t
    → length t < fuel
    → kind_loop fuel s i permission op mode ≡ apply_what permission op mode t
unfolding kind_loop apply_what changed change_mode
kind_loop-apply_what zero s t i permission op mode e z l = absurd (omega (arith, l))
kind_loop-apply_what (suc fuel) s [] i permission op mode e z l = rw (char_at-end s i e) refl
kind_loop-apply_what (suc fuel) s (c ∷ t) i permission op mode e (z, zs) l =
    let here = char_at-drop s i c t e in
    elim (Bool-cases (is_what c)) [
      | inl w ↦
          rw (here, not_zero c z, w)
            (kind_loop-apply_what fuel s t (i + 1) permission op
              (change_mode op mode (bit_and permission (what_bits c))) (drop_next s i c t e) zs
              (omega (arith, l)))
      | inr w ↦ rw (here, not_zero c z, w) refl
    ]

drop-short : (s : Text) (i : ℕ) → length (drop i s) ≤ length s
drop-short s zero = omega arith
drop-short [] (suc i) = omega arith
drop-short (c ∷ s) (suc i) = omega (arith, drop-short s i)

from_op-apply_op :
    (s t : Text) (i permission mode : ℕ)
    → drop i s ≡ t
    → IsCString t
    → from_op s i permission mode ≡ apply_op permission mode t
unfolding from_op apply_op
from_op-apply_op s [] i permission mode e z = rw (char_at-end s i e) refl
from_op-apply_op s (op ∷ t) i permission mode e (z, zs) =
    let here = char_at-drop s i op t e in
    let short = drop-short s (i + 1) in
    let next = drop_next s i op t e in
    let same =
      kind_loop-apply_what (suc (length s)) s t (i + 1) permission op mode next zs
        (omega (arith, short, ap length next)) in
    elim (Bool-cases (op == b'+' || op == b'-')) [
      | inl w ↦ rw (here, w) same
      | inr w ↦ rw (here, w) refl
    ]

read_who-IsCString : (permission : ℕ) (t : Text) → IsCString t → IsCString (read_who permission t).1
unfolding read_who
read_who-IsCString permission [] z = tt
read_who-IsCString permission (c ∷ t) (z, zs) = elim (Bool-cases (is_who c)) [
  | inl w ↦ rw w (read_who-IsCString (bit_or permission (who_bits c)) t zs)
  | inr w ↦ rw w (z, zs)
]

octal_digits-all_octal : (s : Text) → octal_digits s ≡ all_octal s
unfolding octal_digits all_octal
octal_digits-all_octal [] = refl
octal_digits-all_octal (c ∷ s) = ap (λ b. is_octal c && b) (octal_digits-all_octal s)

is_octal_mode-matches_octal : (s : Text) → is_octal_mode s ≡ matches_octal s
unfolding is_octal_mode matches_octal
is_octal_mode-matches_octal [] = refl
is_octal_mode-matches_octal (c ∷ s) = ap (λ b. is_octal c && b) (octal_digits-all_octal s)

by_index : Text → ℕ → ℕ
by_index s mode =
    let (i, permission) = class_loop (suc (length s)) s 0 0 in
    from_op s i (if permission == 0 then 0o777 else permission) mode

by_index-symbolic_mode :
    (s : Text) (mode : ℕ) → IsCString s → by_index s mode ≡ symbolic_mode s mode
unfolding by_index symbolic_mode
by_index-symbolic_mode s mode z =
    let (at, same) = class_loop-read_who (suc (length s)) s s 0 0 refl z (omega arith) in
    from_op-apply_op s (read_who 0 s).1 _ _ mode at (read_who-IsCString 0 s z)
    ∙ ap (λ p. apply_op (if p == 0 then 0o777 else p) mode (read_who 0 s).1) same

-- For a text with no zero in it, the loops over an index compute the mode that recursion on the
-- text gives.
pub chmod_format_same :
    (compiled : Bool) (mode_str : Text) (mode : ℕ)
    → IsCString mode_str
    → chmod_format compiled mode_str mode ≡ Shell.Chmod.chmod_format compiled mode_str mode
unfolding chmod_format Shell.Chmod.chmod_format by_index
chmod_format_same compiled mode_str mode z = λ i.
    if compiled
    then (if is_octal_mode-matches_octal mode_str i
        then to_mode (strtol_octal mode_str)
        else by_index-symbolic_mode mode_str mode z i)
    else 0
