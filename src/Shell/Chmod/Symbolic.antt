-- ===== src/Shell/Chmod/Symbolic.antt =====
-- What a symbolic mode such as `ug+rw` does to each bit of a mode.
use system_sw_gui_project.Prelude.{
  ℕ, zero, suc, ◌<◌, ◌≡◌, ◌≢◌, ◌⊎◌, refl, ◌∙◌, Bool, true, false, ◌&&◌, ◌||◌, [], ◌∷◌, ◌++◌, ◌==◌,
  if◌then◌else◌, Text, All, arith,
}
use system_sw_gui_project.Libc.Numbers.{is_octal}
use system_sw_gui_project.Libc.Bits.{bit, bit-ne-zero, bit-zero}
use system_sw_gui_project.Shell.Chmod.{
  all_octal, matches_octal, is_who, read_who, is_what, apply_op, symbolic_mode, chmod_format,
}
use system_sw_gui_project.Shell.Chmod.Letters.{who_letter, what_letter, contains, to_bit, names_who}
use system_sw_gui_project.Shell.Chmod.Loops.{read_who_rest, read_who-bit, apply_what-bit}

bit_full : (k : ℕ) → k < 9 → bit k 0o777 ≡ 1
unfolding bit
bit_full zero h = refl
bit_full (suc zero) h = refl
bit_full (suc (suc zero)) h = refl
bit_full (suc (suc (suc zero))) h = refl
bit_full (suc (suc (suc (suc zero)))) h = refl
bit_full (suc (suc (suc (suc (suc zero))))) h = refl
bit_full (suc (suc (suc (suc (suc (suc zero)))))) h = refl
bit_full (suc (suc (suc (suc (suc (suc (suc zero))))))) h = refl
bit_full (suc (suc (suc (suc (suc (suc (suc (suc zero)))))))) h = refl
bit_full (suc (suc (suc (suc (suc (suc (suc (suc (suc k))))))))) h = absurd (omega arith)

-- The lowest bit of the class that a letter names.
abbrev class_bit : ℕ → ℕ
class_bit c = if c == b'u' then 6 else if c == b'g' then 3 else 0

class_bit-letter :
    (c : ℕ) → is_who c ≡ true → (class_bit c < 9) × ((c == who_letter (class_bit c)) ≡ true)
class_bit-letter c h = ground arith

true_or : (a b : Bool) → a ≡ true → to_bit (a || b) ≡ 1
true_or true b h = refl
true_or false b h = absurd (cc)

read_who-ne-zero :
    (c : ℕ) (who s : Text) (op : ℕ)
    → is_who c ≡ true
    → All (λ x. is_who x ≡ true) who
    → is_who op ≡ false
    → ((read_who 0 ((c ∷ who) ++ op ∷ s)).0 == 0) ≡ false
read_who-ne-zero c who s op v w o =
    let (lt, e) = class_bit-letter c v in
    let one = read_who-bit (class_bit c) 0 (c ∷ who) s op lt (v, w) o in
    let some_bit =
      true_or (c == who_letter (class_bit c)) (contains (who_letter (class_bit c)) who) e in
    let p = (read_who 0 ((c ∷ who) ++ op ∷ s)).0 in
    let ne : p ≢ 0 =
      bit-ne-zero (class_bit c) p (omega (arith, one, some_bit, bit-zero (class_bit c))) in
    ground arith

-- The permission that the last loop gets, at bit k.
permission-bit :
    (k : ℕ) (who s : Text) (op : ℕ)
    → k < 9
    → All (λ c. is_who c ≡ true) who
    → is_who op ≡ false
    → let p = (read_who 0 (who ++ op ∷ s)).0 in
      bit k (if p == 0 then 0o777 else p) ≡ to_bit (names_who k who)
unfolding read_who
permission-bit k [] s op h w o = rw o (bit_full k h)
permission-bit k (c ∷ who) s op h (v, w) o =
    rw (read_who-ne-zero c who s op v w o)
      (read_who-bit k 0 (c ∷ who) s op h (v, w) o ∙ omega (arith, bit-zero k))

and_false : (a b : Bool) → b ≡ false → a && b ≡ false
and_false true b h = h
and_false false b h = refl

not_all_octal : (who s : Text) (op : ℕ) → is_octal op ≡ false → all_octal (who ++ op ∷ s) ≡ false
unfolding all_octal
not_all_octal [] s op h = rw h
not_all_octal (c ∷ who) s op h = and_false (is_octal c) _ (not_all_octal who s op h)

not_octal : (who s : Text) (op : ℕ) → is_octal op ≡ false → matches_octal (who ++ op ∷ s) ≡ false
unfolding matches_octal
not_octal [] s op h = rw h
not_octal (c ∷ who) s op h = and_false (is_octal c) _ (not_all_octal who s op h)

sign_plain :
    (op : ℕ)
    → (op ≡ b'+') ⊎ (op ≡ b'-')
    → (is_octal op ≡ false) × (is_who op ≡ false) × ((op == b'+' || op == b'-') ≡ true)
sign_plain op o = ground arith

compiled_bit :
    (who what : Text) (op mode k : ℕ)
    → All (λ c. is_who c ≡ true) who
    → (op ≡ b'+') ⊎ (op ≡ b'-')
    → All (λ c. is_what c ≡ true) what
    → k < 9
    → bit k (chmod_format true (who ++ op ∷ what) mode) ≡ (
        if names_who k who && contains (what_letter k) what
        then (if op == b'+' then 1 else 0)
        else bit k mode)
unfolding chmod_format symbolic_mode apply_op
compiled_bit who what op mode k w o v h =
    let (plain, other, sign) = sign_plain op o in
    rw (not_octal who what op plain, read_who_rest 0 who what op w other, sign)
      (apply_what-bit k _ op mode (names_who k who) what h (permission-bit k who what op h w other)
        o v)

-- For a mode of letters out of `ugo`, then `+` or `-`, then letters out of `rwx`, where regcomp
-- succeeds: each of the nine permission bits becomes 1 for `+` and 0 for `-` if the letters before
-- the sign name its class (no letters name all three) and those behind it its kind, and stays as it
-- was otherwise. Where regcomp fails, each of the nine becomes 0.
pub chmod_format-bit :
    (compiled : Bool) (who what : Text) (op mode k : ℕ)
    → All (λ c. is_who c ≡ true) who
    → (op ≡ b'+') ⊎ (op ≡ b'-')
    → All (λ c. is_what c ≡ true) what
    → k < 9
    → bit k (chmod_format compiled (who ++ op ∷ what) mode) ≡ (
        if compiled
        then (if names_who k who && contains (what_letter k) what
            then (if op == b'+' then 1 else 0)
            else bit k mode)
        else 0)
unfolding chmod_format
chmod_format-bit true who what op mode k w o v h = compiled_bit who what op mode k w o v h
chmod_format-bit false who what op mode k w o v h = bit-zero k
