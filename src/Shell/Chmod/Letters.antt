-- ===== src/Shell/Chmod/Letters.antt =====
-- The letters of a symbolic mode, and the bits that they stand for.
use system_sw_gui_project.Prelude.{
  ℕ, zero, suc, ◌%◌, ◌<◌, ◌≡◌, Bool, true, false, ◌||◌, [], ◌∷◌, ◌==◌, ltb, if◌then◌else◌, Text,
  arith,
}
use system_sw_gui_project.Libc.Bits.{bit}
use system_sw_gui_project.Shell.Chmod.{who_bits, is_who, what_bits, is_what}

-- The letters of bit k of a mode: whose permission it is, and which.
abbrev pub who_letter : ℕ → ℕ
who_letter k = if ltb k 3 then b'o' else if ltb k 6 then b'g' else b'u'

abbrev pub what_letter : ℕ → ℕ
what_letter k = if k % 3 == 0 then b'x' else if k % 3 == 1 then b'w' else b'r'

abbrev pub contains : ℕ → Text → Bool
contains c [] = false
contains c (x ∷ s) = x == c || contains c s

abbrev pub to_bit : Bool → ℕ
to_bit true = 1
to_bit false = 0

-- A symbolic mode names bit k.
abbrev pub names_who : ℕ → Text → Bool
names_who k [] = true
names_who k (c ∷ who) = contains (who_letter k) (c ∷ who)

pub who_bits-bit :
    (k c : ℕ) → k < 9 → is_who c ≡ true → bit k (who_bits c) ≡ to_bit (c == who_letter k)
unfolding bit
who_bits-bit zero c h w = ground arith
who_bits-bit (suc zero) c h w = ground arith
who_bits-bit (suc (suc zero)) c h w = ground arith
who_bits-bit (suc (suc (suc zero))) c h w = ground arith
who_bits-bit (suc (suc (suc (suc zero)))) c h w = ground arith
who_bits-bit (suc (suc (suc (suc (suc zero))))) c h w = ground arith
who_bits-bit (suc (suc (suc (suc (suc (suc zero)))))) c h w = ground arith
who_bits-bit (suc (suc (suc (suc (suc (suc (suc zero))))))) c h w = ground arith
who_bits-bit (suc (suc (suc (suc (suc (suc (suc (suc zero)))))))) c h w = ground arith
who_bits-bit (suc (suc (suc (suc (suc (suc (suc (suc (suc k))))))))) c h w = absurd (omega arith)

pub what_bits-bit :
    (k c : ℕ) → k < 9 → is_what c ≡ true → bit k (what_bits c) ≡ to_bit (c == what_letter k)
unfolding bit
what_bits-bit zero c h w = ground arith
what_bits-bit (suc zero) c h w = ground arith
what_bits-bit (suc (suc zero)) c h w = ground arith
what_bits-bit (suc (suc (suc zero))) c h w = ground arith
what_bits-bit (suc (suc (suc (suc zero)))) c h w = ground arith
what_bits-bit (suc (suc (suc (suc (suc zero))))) c h w = ground arith
what_bits-bit (suc (suc (suc (suc (suc (suc zero)))))) c h w = ground arith
what_bits-bit (suc (suc (suc (suc (suc (suc (suc zero))))))) c h w = ground arith
what_bits-bit (suc (suc (suc (suc (suc (suc (suc (suc zero)))))))) c h w = ground arith
what_bits-bit (suc (suc (suc (suc (suc (suc (suc (suc (suc k))))))))) c h w = absurd (omega arith)
