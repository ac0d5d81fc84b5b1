-- ===== src/Libc/Bits.antt =====
-- The bits of `|`, `&` and `& ~` on mode_t, read one at a time.
use Prim.Native.Nat.{min, max, digits, bit_and, bit_or, bit_and-bitwise, bit_or-bitwise}
use native.Mathlib.Nat.{pow-suc}
use system_sw_gui_project.Prelude.{
  ℕ, zero, suc, ◌+◌, ◌-◌, ◌*◌, ◌/◌, ◌%◌, ◌^◌, ◌≤◌, ◌<◌, ◌≡◌, ◌≢◌, refl, ap, ◌∙◌, sym, arith,
}

-- Bit k of a number.
unfoldable pub bit : ℕ → ℕ → ℕ
bit zero m = m % 2
bit (suc k) m = bit k (m / 2)

pub bit-lt : (k m : ℕ) → bit k m < 2
unfolding bit
bit-lt zero m = omega arith
bit-lt (suc k) m = bit-lt k (m / 2)

pub bit-zero : (k : ℕ) → bit k 0 ≡ 0
unfolding bit
bit-zero zero = refl
bit-zero (suc k) = bit-zero k

module _ (z : ℕ → ℕ) (f : ℕ → ℕ → ℕ) (small : (x y : ℕ) → x < 2 → y < 2 → f x y < 2)
    (base : (k b : ℕ) → bit k (z b) ≡ f 0 (bit k b)) where
  bit-digits : (n k a b : ℕ) → a ≤ n → bit k (digits z f n a b) ≡ f (bit k a) (bit k b)
  unfolding bit
  bit-digits zero k zero b h = base k b ∙ ap (λ x. f x (bit k b)) (sym (bit-zero k))
  bit-digits zero k (suc a) b h = absurd (omega arith)
  bit-digits (suc n) k zero b h = base k b ∙ ap (λ x. f x (bit k b)) (sym (bit-zero k))
  bit-digits (suc n) zero (suc a) b h =
      omega (arith, small (suc a % 2) (b % 2) (omega arith) (omega arith))
  bit-digits (suc n) (suc k) (suc a) b h =
      ap (bit k) (omega (arith, small (suc a % 2) (b % 2) (omega arith) (omega arith)))
      ∙ bit-digits n k (suc a / 2) (b / 2) (omega arith)

pub bit-bit_or : (k a b : ℕ) → bit k (bit_or a b) ≡ max (bit k a) (bit k b)
bit-bit_or k a b =
    ap (bit k) (bit_or-bitwise a b)
    ∙ bit-digits (λ y. y) max (λ x y p q. omega arith) (λ j c. omega arith) a k a b (omega arith)

pub bit-bit_and : (k a b : ℕ) → bit k (bit_and a b) ≡ min (bit k a) (bit k b)
bit-bit_and k a b =
    ap (bit k) (bit_and-bitwise a b)
    ∙ bit-digits (λ y. 0) min (λ x y p q. omega arith) (λ j c. omega (arith, bit-zero j)) a k a b
        (omega arith)

-- The complement within w bits.
pub bit-complement : (w k m : ℕ) → k < w → m < 2 ^ w → bit k (2 ^ w - 1 - m) ≡ 1 - bit k m
unfolding bit
bit-complement zero k m h p = absurd (omega arith)
bit-complement (suc w) zero m h p = omega (arith, pow-suc 2 w)
bit-complement (suc w) (suc k) m h p =
    let half : (2 ^ suc w - 1 - m) / 2 ≡ 2 ^ w - 1 - m / 2 = omega (arith, pow-suc 2 w) in
    ap (bit k) half ∙ bit-complement w k (m / 2) (omega arith) (omega (arith, pow-suc 2 w))

-- No bits beyond the width, and none but zero has no bits.
pub bit_beyond : (w k m : ℕ) → m < 2 ^ w → w ≤ k → bit k m ≡ 0
unfolding bit
bit_beyond zero k m h p = ap (bit k) (omega arith) ∙ bit-zero k
bit_beyond (suc w) zero m h p = absurd (omega arith)
bit_beyond (suc w) (suc k) m h p = bit_beyond w k (m / 2) (omega (arith, pow-suc 2 w)) (omega arith)

pub bit-ne-zero : (k m : ℕ) → bit k m ≡ 1 → m ≢ 0
bit-ne-zero k m h e = absurd (omega (arith, bit-zero k, ap (bit k) e))

digits-min-le : (n a b : ℕ) → digits (λ y. 0) min n a b ≤ b
digits-min-le zero a b = omega arith
digits-min-le (suc n) zero b = omega arith
digits-min-le (suc n) (suc a) b = omega (arith, digits-min-le n (suc a / 2) (b / 2))

pub bit_and-le_right : (a b : ℕ) → bit_and a b ≤ b
bit_and-le_right a b = omega (arith, digits-min-le a a b, bit_and-bitwise a b)

pub bit-pow_self : (k : ℕ) → bit k (2 ^ k) ≡ 1
unfolding bit
bit-pow_self zero = refl
bit-pow_self (suc k) = ap (bit k) (omega (arith, pow-suc 2 k)) ∙ bit-pow_self k

pub bit-pow_ne : (j k : ℕ) → j ≢ k → bit j (2 ^ k) ≡ 0
unfolding bit
bit-pow_ne zero zero h = absurd (h refl)
bit-pow_ne zero (suc k) h = omega (arith, pow-suc 2 k)
bit-pow_ne (suc j) zero h = bit-zero j
bit-pow_ne (suc j) (suc k) h =
    ap (bit j) (omega (arith, pow-suc 2 k)) ∙ bit-pow_ne j k (λ e. h (ap suc e))

pub zero_of_bits : (w m : ℕ) → m < 2 ^ w → ((k : ℕ) → bit k m ≡ 0) → m ≡ 0
unfolding bit
zero_of_bits zero m h z = omega arith
zero_of_bits (suc w) m h z =
    omega (arith, z 0, zero_of_bits w (m / 2) (omega (arith, pow-suc 2 w)) (λ k. z (suc k)))

-- The number that the low bits make.
unfoldable pub low_bits : ℕ → ℕ → ℕ
low_bits zero m = 0
low_bits (suc w) m = m % 2 + 2 * low_bits w (m / 2)

pub low_bits-mod : (m : ℕ) → low_bits 12 m ≡ m % 4096
unfolding low_bits
low_bits-mod m = omega arith
