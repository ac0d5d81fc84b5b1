-- ===== src/Backend/Numbered.antt =====
-- The numbered directories of handle_mkdir.
use system_sw_gui_project.Prelude.{
  ℕ, zero, suc, ◌+◌, ◌%◌, ap, sym, ◌∙◌, ◌≡◌, refl, Bool, true, false, Option, none, some, ◌++◌, [],
  ◌∷◌, Text, arith, Bool-cases, inl, inr,
}
use system_sw_gui_project.Run.{Run, call, ◌>>=◌, ◌>>◌, skip}
use system_sw_gui_project.Backend.Calls.{Calls, made, eexist}
use system_sw_gui_project.Backend.Requests.{succeed, numbered, mkdir_loop}

-- mkdir makes a name that is not taken, and leaves a taken one alone.
pub record Makes (K : Calls) (taken : Text → K.State → Bool) : Type 0 where
  pub new :
      (p : Text) (m : ℕ) (s : K.State)
      → taken p s ≡ false
      → K.mkdir p m s ≡ (made, (K.mkdir p m s).1)
  pub old : (p : Text) (m : ℕ) (s : K.State) → taken p s ≡ true → K.mkdir p m s ≡ (eexist, s)

-- The least digit from `digit` on, among `k` of them, whose name is free.
abbrev pub free_from : (ℕ → Bool) → ℕ → ℕ → Option ℕ
free_from used zero digit = none
free_from used (suc k) digit =
    let rest = free_from used k (suc digit) in
    elim (used digit) [ true ↦ rest | false ↦ some digit ]

free_from-taken :
    (f : ℕ → Bool) (k digit : ℕ)
    → f digit ≡ true
    → free_from f (suc k) digit ≡ free_from f k (suc digit)
free_from-taken f k digit e = rw (e, free_from)

free_from-free :
    (f : ℕ → Bool) (k digit : ℕ) → f digit ≡ false → free_from f (suc k) digit ≡ some digit
free_from-free f k digit e = rw (e, free_from)

-- Make the directory with that digit and answer, or do nothing.
abbrev pub make_numbered :
    (K : Calls) → (ℕ → Run K.State (Unit {0})) → Option ℕ → Run K.State (Unit {0})
make_numbered K act none = skip
make_numbered K act (some digit) = act digit

module _ (K : Calls) (depth fuel queue : ℕ) (taken : Text → K.State → Bool) (h : Makes K taken)
    (path : Text) where
  abbrev pub make_digit : ℕ → Run K.State (Unit {0})
  make_digit digit =
      call (K.mkdir (numbered K depth fuel queue path digit) 0o755) >> succeed K depth fuel queue

  abbrev pub used : K.State → ℕ → Bool
  used s digit = taken (path ++ (b'0' + digit) ∷ []) s

  -- One round of the loop at a free name, and at a taken one.
  free_round :
      (k count digit : ℕ) (s : K.State)
      → used s digit ≡ false
      → mkdir_loop K depth fuel queue (suc k) count digit path s ≡ make_digit digit s
  unfolding mkdir_loop ◌>>=◌ call
  free_round k count digit s e = rw (h.new (numbered K depth fuel queue path digit) 0o755 s e)

  taken_round :
      (k count digit : ℕ) (s : K.State)
      → used s digit ≡ true
      → mkdir_loop K depth fuel queue (suc k) count digit path s
        ≡ mkdir_loop K depth fuel queue k (count + 1) (count % 10) path s
  unfolding mkdir_loop ◌>>=◌ call
  taken_round k count digit s e = rw (h.old (numbered K depth fuel queue path digit) 0o755 s e)

  -- The digit after one that was tried: the remainder changes nothing while rounds are left.
  next_digit :
      (k digit : ℕ)
      → suc k + digit ≡ 10
      → mkdir_loop K depth fuel queue k (suc digit + 1) (suc digit % 10) path
        ≡ mkdir_loop K depth fuel queue k (suc (suc digit)) (suc digit) path
  unfolding mkdir_loop
  next_digit zero digit e = refl
  next_digit (suc k) digit e =
      let small : suc digit % 10 ≡ suc digit = omega (arith, e) in
      let more : suc digit + 1 ≡ suc (suc digit) = omega arith in
      ap (λ x. mkdir_loop K depth fuel queue (suc k) (suc digit + 1) x path) small
      ∙ ap (λ x. mkdir_loop K depth fuel queue (suc k) x (suc digit) path) more

  mkdir_loop_from :
      (k digit : ℕ) (s : K.State)
      → k + digit ≡ 10
      → mkdir_loop K depth fuel queue k (suc digit) digit path s
        ≡ make_numbered K make_digit (free_from (used s) k digit) s
  unfolding mkdir_loop
  mkdir_loop_from zero digit s e = refl
  mkdir_loop_from (suc k) digit s e = elim (Bool-cases (used s digit)) [
    | inl t ↦
        taken_round k (suc digit) digit s t
        ∙ ap (λ m. m s) (next_digit k digit e)
        ∙ mkdir_loop_from k (suc digit) s (omega (arith, e))
        ∙ sym (ap (λ o. make_numbered K make_digit o s) (free_from-taken (used s) k digit t))
    | inr f ↦
        free_round k (suc digit) digit s f
        ∙ sym (ap (λ o. make_numbered K make_digit o s) (free_from-free (used s) k digit f))
  ]

  -- If mkdir makes a name that is not taken and leaves a taken one alone, the loop tries the
  -- digits from 0 to 9: with the least of them that names nothing yet it makes
  -- the directory and answers, and if all ten are taken it does nothing.
  pub mkdir_loop-make_numbered :
      (s : K.State)
      → mkdir_loop K depth fuel queue 11 0 0 path s
        ≡ make_numbered K make_digit (free_from (used s) 10 0) s
  mkdir_loop-make_numbered s = elim (Bool-cases (used s 0)) [
    | inl t ↦ taken_round 10 0 0 s t ∙ mkdir_loop_from 10 0 s (omega arith)
    | inr f ↦
        free_round 10 0 0 s f
        ∙ sym (ap (λ o. make_numbered K make_digit o s) (free_from-free (used s) 9 0 f))
  ]
