-- ===== src/Shell/Chmod/Loops.antt =====
-- The two loops of chmod_format, bit by bit.
use Prim.Native.Nat.{min, max, bit_and, bit_or}
use system_sw_gui_project.Prelude.{
  ℕ, ◌-◌, ◌^◌, ◌<◌, ◌≡◌, ◌⊎◌, inl, inr, refl, ap, ◌∙◌, Bool, true, false, ◌&&◌, ◌||◌, [], ◌∷◌, ◌++◌,
  ◌==◌, if◌then◌else◌, Text, All, arith,
}
use system_sw_gui_project.Libc.Bits.{
  bit, bit-lt, bit-bit_or, bit-bit_and, bit-complement, bit_and-le_right,
}
use system_sw_gui_project.Shell.Chmod.{
  who_bits, is_who, read_who, what_bits, is_what, change_mode, apply_what,
}
use system_sw_gui_project.Shell.Chmod.Letters.{
  who_letter, what_letter, contains, to_bit, who_bits-bit, what_bits-bit,
}

-- The first loop reads the letters of `who` and stops before the operator.
pub read_who_rest :
    (p : ℕ) (who s : Text) (op : ℕ)
    → All (λ c. is_who c ≡ true) who
    → is_who op ≡ false
    → (read_who p (who ++ op ∷ s)).1 ≡ op ∷ s
unfolding read_who
read_who_rest p [] s op w o = rw o
read_who_rest p (c ∷ who) s op (h, w) o = rw h (read_who_rest (bit_or p (who_bits c)) who s op w o)

pub max-to_bit : (x : ℕ) (e b : Bool) → max (max x (to_bit e)) (to_bit b) ≡ max x (to_bit (e || b))
max-to_bit x true true = omega arith
max-to_bit x true false = omega arith
max-to_bit x false b = omega arith

pub max_or :
    (k p c : ℕ) (b : Bool)
    → k < 9
    → is_who c ≡ true
    → max (bit k (bit_or p (who_bits c))) (to_bit b)
      ≡ max (bit k p) (to_bit (c == who_letter k || b))
max_or k p c b h v =
    ap (λ x. max x (to_bit b))
      (bit-bit_or k p (who_bits c) ∙ ap (max (bit k p)) (who_bits-bit k c h v))
    ∙ max-to_bit (bit k p) (c == who_letter k) b

pub read_who-bit :
    (k p : ℕ) (who s : Text) (op : ℕ)
    → k < 9
    → All (λ c. is_who c ≡ true) who
    → is_who op ≡ false
    → bit k (read_who p (who ++ op ∷ s)).0 ≡ max (bit k p) (to_bit (contains (who_letter k) who))
unfolding read_who
read_who-bit k p [] s op h w o = rw o (omega arith)
read_who-bit k p (c ∷ who) s op h (v, w) o = rw v (
    read_who-bit k (bit_or p (who_bits c)) who s op h w o
    ∙ max_or k p c (contains (who_letter k) who) h v)

-- One operation on one bit.
abbrev pub changed : ℕ → Bool → ℕ → ℕ
changed op named old = if named then (if op == b'+' then 1 else 0) else old

pub change_mode-bit :
    (k op mode bits : ℕ) (named : Bool)
    → k < 32
    → bits < 2 ^ 32
    → (op ≡ b'+') ⊎ (op ≡ b'-')
    → bit k bits ≡ to_bit named
    → bit k (change_mode op mode bits) ≡ changed op named (bit k mode)
unfolding change_mode
change_mode-bit k op mode bits true h small (inl o) e =
    rw o (omega (arith, bit-bit_or k mode bits, bit-lt k mode))
change_mode-bit k op mode bits false h small (inl o) e =
    rw o (omega (arith, bit-bit_or k mode bits, bit-lt k mode))
change_mode-bit k op mode bits true h small (inr o) e =
    rw o (omega (arith, bit-bit_and k mode (2 ^ 32 - 1 - bits), bit-complement 32 k bits h small))
change_mode-bit k op mode bits false h small (inr o) e = rw o (
    omega (
      arith,
      bit-bit_and k mode (2 ^ 32 - 1 - bits),
      bit-complement 32 k bits h small,
      bit-lt k mode,
    ))

pub min-to_bit : (a b : Bool) → min (to_bit a) (to_bit b) ≡ to_bit (a && b)
min-to_bit true true = omega arith
min-to_bit true false = omega arith
min-to_bit false b = omega arith

pub what_bits_small : (permission c : ℕ) → bit_and permission (what_bits c) < 2 ^ 32
what_bits_small permission c = ground (arith, bit_and-le_right permission (what_bits c))

pub changed_twice :
    (op x : ℕ) (w e r : Bool)
    → changed op (w && r) (changed op (w && e) x) ≡ changed op (w && (e || r)) x
changed_twice op x true true true = refl
changed_twice op x true true false = refl
changed_twice op x true false r = refl
changed_twice op x false e r = refl

-- The last loop: a bit is changed if the permission covers it and `what` has its letter.
pub apply_what-bit :
    (k permission op mode : ℕ) (who : Bool) (what : Text)
    → k < 9
    → bit k permission ≡ to_bit who
    → (op ≡ b'+') ⊎ (op ≡ b'-')
    → All (λ c. is_what c ≡ true) what
    → bit k (apply_what permission op mode what)
      ≡ changed op (who && contains (what_letter k) what) (bit k mode)
unfolding apply_what
apply_what-bit k permission op mode who [] h e o w = ground arith
apply_what-bit k permission op mode who (c ∷ what) h e o (v, w) = rw v (
    apply_what-bit k permission op (change_mode op mode (bit_and permission (what_bits c))) who what
      h e o w
    ∙ ap (changed op (who && contains (what_letter k) what)) (
        change_mode-bit k op mode _ (who && (c == what_letter k)) (omega arith)
          (what_bits_small permission c) o
          (bit-bit_and k permission (what_bits c)
            ∙ ap (min (bit k permission)) (what_bits-bit k c h v)
            ∙ ap (λ x. min x (to_bit (c == what_letter k))) e
            ∙ min-to_bit who (c == what_letter k)))
    ∙ changed_twice op (bit k mode) who (c == what_letter k) (contains (what_letter k) what))
