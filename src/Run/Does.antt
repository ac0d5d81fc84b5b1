-- ===== src/Run/Does.antt =====
-- Runs that return, with what holds before and behind them, one rule for each way to build a run.
use system_sw_gui_project.Prelude.{◌≡◌, refl, Bool, true, false, if◌then◌else◌}
use system_sw_gui_project.Run.{Run, done, pure, ◌>>=◌}
use system_sw_gui_project.Run.Returns.{bind_done}

-- From a state with `P`, the run returns, with `Q` of its result and the state it leaves.
pub record Does {S A : Type 0} (P : S → Type 0) (m : Run S A) (Q : A → S → Type 0) : Type 0 where
  pub at : (s : S) → P s → (a : A) × ((m s).0 ≡ done a) × Q a (m s).1

module _ {S A : Type 0} {P : S → Type 0} where
  pub Does-pure : {Q : A → S → Type 0} (a : A) → ((s : S) → P s → Q a s) → Does P (pure a) Q
  unfolding pure
  Does-pure a k = record { at = λ s h. (a, refl, k s h) }

  pub Does-bind :
      {B : Type 0} {R : A → S → Type 0} {Q : B → S → Type 0} (m : Run S A) (f : A → Run S B)
      → Does P m R
      → ((a : A) → Does (R a) (f a) Q)
      → Does P (m >>= f) Q
  Does-bind m f k l = record {
    at = λ s h.
        let (a, d, r) = k.at s h in
        let (b, e, q) = (l a).at (m s).1 r in rw (bind_done m f s a d) (b, e, q);
  }

  pub Does-if :
      {Q : A → S → Type 0} (test : Bool) (yes_run no_run : Run S A)
      → Does P yes_run Q
      → Does P no_run Q
      → Does P (if test then yes_run else no_run) Q
  Does-if true y n ky kn = ky
  Does-if false y n ky kn = kn

  pub Does-weaken :
      {Q R : A → S → Type 0} (m : Run S A)
      → Does P m Q
      → ((a : A) (s : S) → Q a s → R a s)
      → Does P m R
  Does-weaken m k l = record { at = λ s h. let (a, e, q) = k.at s h in (a, e, l a _ q) }
