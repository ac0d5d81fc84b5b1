-- ===== src/Run/Returns.antt =====
-- Runs that return: they neither use up their fuel nor end the program.
use system_sw_gui_project.Prelude.{◌≡◌, refl, Bool, true, false, if◌then◌else◌}
use system_sw_gui_project.Run.{Outcome, done, Op, Run, pure, call, ◌>>=◌, ◌>>◌}

-- From every state, `m` returns a value.
pub record Returns {S A : Type 0} (m : Run S A) : Type 0 where
  pub at : (s : S) → (a : A) × ((m s).0 ≡ done a)

module _ {S A : Type 0} where
  pub Returns-pure : (a : A) → Returns {S = S} (pure a)
  unfolding pure
  Returns-pure a = record { at = λ s. (a, refl) }

  pub Returns-call : (op : Op S A) → Returns (call op)
  unfolding call
  Returns-call op = record { at = λ s. ((op s).0, refl) }

  pub Returns-if : (b : Bool) (m n : Run S A) → Returns m → Returns n → Returns (if b then m else n)
  Returns-if true m n km kn = km
  Returns-if false m n km kn = kn

module _ {S A B : Type 0} where
  pub continue_done :
      (r : Outcome A) (f : A → Run S B) (s : S) (a : A)
      → r ≡ done a
      → system_sw_gui_project.Run.continue r f s ≡ f a s
  continue_done r f s a e = rw e

  pub bind_done :
      (m : Run S A) (f : A → Run S B) (s : S) (a : A) → (m s).0 ≡ done a → (m >>= f) s ≡ f a (m s).1
  unfolding ◌>>=◌
  bind_done m f s a e = continue_done (m s).0 f (m s).1 a e

  pub Returns-bind :
      (m : Run S A) (f : A → Run S B) → Returns m → ((a : A) → Returns (f a)) → Returns (m >>= f)
  Returns-bind m f km kf = record {
    at = λ s.
        let (a, e) = km.at s in let (b, d) = (kf a).at (m s).1 in (b, rw (bind_done m f s a e, d));
  }

pub ruleset returns_rules = (Returns-pure, Returns-call, Returns-if, Returns-bind)

-- The same from one state.
abbrev pub ReturnsAt : {S A : Type 0} → Run S A → S → Type 0
ReturnsAt {A = A} m s = (a : A) × ((m s).0 ≡ done a)

module _ {S A B : Type 0} where
  pub ReturnsAt-call :
      (op : Op S A) (f : A → Run S B) (s : S)
      → ReturnsAt (f (op s).0) (op s).1
      → ReturnsAt (call op >>= f) s
  unfolding ◌>>=◌ call
  ReturnsAt-call op f s h = h

  pub ReturnsAt-bind :
      (m : Run S A) (f : A → Run S B) (s : S)
      → ReturnsAt m s
      → ((a : A) → Returns (f a))
      → ReturnsAt (m >>= f) s
  ReturnsAt-bind m f s (a, e) kf =
      let (b, d) = (kf a).at (m s).1 in (b, rw (bind_done m f s a e, d))
