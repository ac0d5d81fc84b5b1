-- ===== src/Shell/Ls/Permissions.antt =====
-- print_permissions of custom_shell/cmd_ls.c loses nothing of the twelve mode bits.
use Prim.Native.Nat.{bit_and, min}
use native.Mathlib.Decide.{dec_lt, ℕ_discrete}
use native.Mathlib.Nat.{pow-suc}
use system_sw_gui_project.Prelude.{
  ℕ, zero, suc, ◌+◌, ◌*◌, ◌%◌, ◌^◌, ◌<◌, ◌≡◌, ◌≢◌, ap, ◌∙◌, sym, [], ◌∷◌, ◌==◌, if◌then◌else◌, Text,
  arith,
}
use system_sw_gui_project.Libc.Bits.{
  bit, bit-lt, bit-bit_and, bit-pow_self, bit-pow_ne, zero_of_bits, low_bits, low_bits-mod,
  bit-ne-zero, bit_and-le_right,
}
use system_sw_gui_project.Shell.Ls.{has, permissions, flag, execute}

-- The mode that a string of `ls -l` stands for, read character by character.
abbrev pub plain : ℕ → ℕ → ℕ → ℕ
plain c letter weight = if c == letter then weight else 0

abbrev pub special : ℕ → ℕ → ℕ → ℕ → ℕ → ℕ
special c both alone x s =
    if c == b'x' then x else if c == both then x + s else if c == alone then s else 0

abbrev pub read_permissions : Text → ℕ
read_permissions (a ∷ b ∷ c ∷ d ∷ e ∷ f ∷ g ∷ h ∷ i ∷ []) =
    plain a b'r' 0o400
    + plain b b'w' 0o200
    + special c b's' b'S' 0o100 0o4000
    + plain d b'r' 0o040
    + plain e b'w' 0o020
    + special f b's' b'S' 0o010 0o2000
    + plain g b'r' 0o004
    + plain h b'w' 0o002
    + special i b't' b'T' 0o001 0o1000
read_permissions _ = 0

masked_bits : (m k j : ℕ) → bit k m ≡ 0 → bit j (bit_and m (2 ^ k)) ≡ 0
masked_bits m k j h = elim (ℕ_discrete j k) [
  | yes e ↦ rw e (bit-bit_and k m (2 ^ k) ∙ omega (arith, h))
  | no n ↦ bit-bit_and j m (2 ^ k) ∙ omega (arith, bit-pow_ne j k n)
]

masked_zero : (m k : ℕ) → bit k m ≡ 0 → bit_and m (2 ^ k) ≡ 0
masked_zero m k h =
    zero_of_bits (suc k) (bit_and m (2 ^ k))
      (omega
        (arith, bit_and-le_right m (2 ^ k), pow-suc 2 k, bit-ne-zero k (2 ^ k) (bit-pow_self k)))
      (λ j. masked_bits m k j h)

has-bit : (m k : ℕ) → has m (2 ^ k) ≡ (bit k m == 1)
unfolding has
has-bit m k =
    let here : bit k (bit_and m (2 ^ k)) ≡ min (bit k m) 1 =
      bit-bit_and k m (2 ^ k) ∙ ap (min (bit k m)) (bit-pow_self k) in
    elim (dec_lt 0 (bit k m)) [
      | yes p ↦
          ground
            (arith, bit-ne-zero k (bit_and m (2 ^ k)) (omega (arith, here, bit-lt k m)), bit-lt k m)
      | no p ↦ ground (arith, masked_zero m k (omega arith))
    ]

plain-flag :
    (b letter weight : ℕ)
    → b < 2
    → letter ≢ b'-'
    → plain (flag (b == 1) letter) letter weight ≡ b * weight
plain-flag zero letter weight h n = ground arith
plain-flag (suc zero) letter weight h n = ground arith
plain-flag (suc (suc b)) letter weight h n = absurd (omega arith)

special-execute :
    (x s wx ws both alone : ℕ)
    → x < 2
    → s < 2
    → (both ≢ b'x') × (both ≢ b'-') × (alone ≢ both) × (alone ≢ b'x') × (alone ≢ b'-')
    → special (execute (x == 1) (s == 1) both alone) both alone wx ws ≡ x * wx + s * ws
special-execute zero zero wx ws both alone p q d = ground arith
special-execute zero (suc zero) wx ws both alone p q d = ground arith
special-execute (suc zero) zero wx ws both alone p q d = ground arith
special-execute (suc zero) (suc zero) wx ws both alone p q d = ground arith
special-execute x (suc (suc s)) wx ws both alone p q d = absurd (omega arith)
special-execute (suc (suc x)) s wx ws both alone p q d = absurd (omega arith)

module _ (m : ℕ) where
  flag_field :
      (k letter : ℕ)
      → letter ≢ b'-'
      → plain (flag (has m (2 ^ k)) letter) letter (2 ^ k) ≡ bit k m * 2 ^ k
  flag_field k letter n = rw (has-bit m k) (plain-flag (bit k m) letter (2 ^ k) (bit-lt k m) n)

  execute_field :
      (k j both alone : ℕ)
      → (both ≢ b'x') × (both ≢ b'-') × (alone ≢ both) × (alone ≢ b'x') × (alone ≢ b'-')
      → special (execute (has m (2 ^ k)) (has m (2 ^ j)) both alone) both alone (2 ^ k) (2 ^ j)
        ≡ bit k m * 2 ^ k + bit j m * 2 ^ j
  execute_field k j both alone d =
      rw (has-bit m k, has-bit m j)
        (special-execute (bit k m) (bit j m) (2 ^ k) (2 ^ j) both alone (bit-lt k m) (bit-lt j m) d)

low_bits-eq :
    (m : ℕ)
    → low_bits 12 m
      ≡ bit 8 m * 256
        + bit 7 m * 128
        + (bit 6 m * 64 + bit 11 m * 2048)
        + bit 5 m * 32
        + bit 4 m * 16
        + (bit 3 m * 8 + bit 10 m * 1024)
        + bit 2 m * 4
        + bit 1 m * 2
        + (bit 0 m * 1 + bit 9 m * 512)
unfolding low_bits bit
low_bits-eq m = omega arith

ap_add : {a b c d : ℕ} → a ≡ b → c ≡ d → a + c ≡ b + d
ap_add p q = cc

-- Reading the nine characters gives the twelve low bits of the mode back.
pub read_permissions-permissions : (m : ℕ) → read_permissions (permissions m) ≡ m % 4096
unfolding permissions
read_permissions-permissions m =
    ap_add
      (ap_add
        (ap_add
          (ap_add
            (ap_add
              (ap_add
                (ap_add
                  (ap_add (flag_field m 8 b'r' (omega arith)) (flag_field m 7 b'w' (omega arith)))
                  (execute_field m 6 11 b's' b'S' (omega arith)))
                (flag_field m 5 b'r' (omega arith)))
              (flag_field m 4 b'w' (omega arith)))
            (execute_field m 3 10 b's' b'S' (omega arith)))
          (flag_field m 2 b'r' (omega arith)))
        (flag_field m 1 b'w' (omega arith)))
      (execute_field m 0 9 b't' b'T' (omega arith))
    ∙ sym (low_bits-eq m)
    ∙ low_bits-mod m
