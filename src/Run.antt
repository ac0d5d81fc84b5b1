-- ===== src/Run.antt =====
-- Running code of the repository: a call changes the state of the system and returns, calls
-- exit(), or follows a null pointer. A loop that reads input runs on fuel.
pub mod Keeps
pub mod Returns
pub mod Does
use system_sw_gui_project.Prelude.{ℕ, Bool, if◌then◌else◌}

pub data Outcome {ℓ} (A : Type ℓ) : Type ℓ where
  done : A → Outcome A
  exited : ℕ → Outcome A
  crashed : Outcome A
  out_of_fuel : Outcome A

-- A system call: it returns a value and the new state.
abbrev pub Op : Type 0 → Type 0 → Type 0
Op S A = S → A × S

abbrev pub Run : Type 0 → Type 0 → Type 0
Run S A = S → Outcome A × S

module _ {S A : Type 0} where
  unfoldable pub pure : A → Run S A
  pure a s = (done a, s)

  unfoldable pub exit : ℕ → Run S A
  exit n s = (exited n, s)

  unfoldable pub crash : Run S A
  crash s = (crashed, s)

  unfoldable pub starve : Run S A
  starve s = (out_of_fuel, s)

  unfoldable pub call : Op S A → Run S A
  call op s = let (a, s') = op s in (done a, s')

module _ {S A B : Type 0} where
  abbrev pub continue : Outcome A → (A → Run S B) → Run S B
  continue (done a) f s = f a s
  continue (exited n) f s = (exited n, s)
  continue crashed f s = (crashed, s)
  continue out_of_fuel f s = (out_of_fuel, s)

  infixl 10 ◌>>=◌ ◌>>◌
  unfoldable pub ◌>>=◌ : Run S A → (A → Run S B) → Run S B
  unfolding pure call exit crash starve
  ◌>>=◌ m f s = let (r, s') = m s in continue r f s'

  abbrev pub ◌>>◌ : Run S A → Run S B → Run S B
  m >> n = m >>= λ _. n

abbrev pub skip : {S : Type 0} → Run S (Unit {0})
skip = pure tt

-- if (b) m;
abbrev pub when : {S : Type 0} → Bool → Run S (Unit {0}) → Run S (Unit {0})
when b m = if b then m else skip
