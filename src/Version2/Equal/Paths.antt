-- ===== src/Version2/Equal/Paths.antt =====
-- convert_to_absolute of both versions, strtok call by call against a fold over the tokens.
use system_sw_gui_project.Prelude.{
  ◌+◌, ℕ, zero, suc, ◌<◌, ◌≡◌, refl, sym, ap, ◌∙◌, not, ◌&&◌, Option, none, some, [], ◌∷◌, ◌++◌,
  if◌then◌else◌, Text, codes, length, arith,
}
use system_sw_gui_project.Libc.Strings.{str_eq, strrchr, tokens}
use system_sw_gui_project.Libc.Strtok.{Unrolled, strtok-Unrolled}
use system_sw_gui_project.Run.{call, ◌>>=◌, ◌>>◌, crash}
use system_sw_gui_project.Shell.System.{System, complain, filled}
use system_sw_gui_project.Shell.Paths.{
  is_absolute, entire_path, cut_at, cut_last, add_token, add_tokens,
}
use system_sw_gui_project.Shell
use system_sw_gui_project.Version2.Paths.{
  is_separator, joined_path, end_at, step, loop, convert_to_absolute, result_of, convert,
  convert_into,
}

joined_path-entire_path : (c r : Text) → joined_path c r ≡ entire_path c r
unfolding joined_path entire_path is_absolute
joined_path-entire_path c [] = refl
joined_path-entire_path c (x ∷ r) = refl

end_at-cut_at : (p : Text) (o : Option ℕ) → end_at p o ≡ cut_at p o
unfolding cut_at
end_at-cut_at p none = refl
end_at-cut_at p (some zero) = refl
end_at-cut_at p (some (suc i)) = refl

step-add_token : (p t : Text) → step p t ≡ add_token p t
unfolding step add_token cut_last
step-add_token p t = λ i.
    if str_eq t (codes "..")
    then end_at-cut_at p (strrchr p b'/') i
    else if not (str_eq t []) && not (str_eq t (codes "."))
    then p ++ b'/' ∷ t
    else p

loop-add_tokens :
    (fuel : ℕ) (p s : Text) (next : Option (Text × Text))
    → Unrolled is_separator s next
    → length s < fuel
    → loop fuel p next ≡ add_tokens p (tokens is_separator s)
unfolding loop add_tokens
loop-add_tokens zero p s next u l = absurd (omega (arith, l))
loop-add_tokens (suc fuel) p s none u l = rw u refl
loop-add_tokens (suc fuel) p s (some (t, rest)) (u, r) l =
    loop-add_tokens fuel (step p t) rest _ (strtok-Unrolled is_separator rest) (omega (arith, r, l))
    ∙ ap (λ q. add_tokens q (tokens is_separator rest)) (step-add_token p t)
    ∙ ap (add_tokens p) (sym u)

-- The loop of strtok calls computes the path that folding over all tokens gives.
pub convert_to_absolute_same :
    (current relative : Text)
    → convert_to_absolute current relative ≡ Shell.Paths.convert_to_absolute current relative
unfolding convert_to_absolute Shell.Paths.convert_to_absolute
convert_to_absolute_same current relative =
    loop-add_tokens (suc (length (joined_path current relative))) [] (joined_path current relative)
      _ (strtok-Unrolled is_separator _) (omega arith)
    ∙ ap (λ e. add_tokens [] (tokens is_separator e)) (joined_path-entire_path current relative)

module _ (S : System) where
  result_of-filled : (b a : Text) (o : Option Text) → result_of S b a o ≡ filled S b a o
  unfolding filled
  result_of-filled b a none = refl
  result_of-filled b a (some m) = refl

  pub convert_same : (b r : Text) → convert S b r ≡ Shell.System.convert S b r
  unfolding convert Shell.System.convert
  convert_same b r = λ i. call S.getcwd >>= λ current.
      call (S.malloc (length r + length current + 3)) >>= λ entire.
      (result_of-filled b (convert_to_absolute current r) entire
          ∙ ap (λ a. filled S b a entire) (convert_to_absolute_same current r))
        i

  pub convert_into_same :
      (o : Option Text) (r : Text) → convert_into S o r ≡ Shell.System.convert_into S o r
  unfolding convert_into Shell.System.convert_into
  convert_into_same none r = ap (λ m. m >> crash) (convert_same [] r)
  convert_into_same (some b) r = convert_same b r
