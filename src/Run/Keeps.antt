-- ===== src/Run/Keeps.antt =====
-- Invariants of runs, one rule for each way to build a run.
use system_sw_gui_project.Prelude.{ℕ, ◌≡◌, refl, Bool, true, false, if◌then◌else◌}
use system_sw_gui_project.Run.{
  Outcome, done, exited, crashed, out_of_fuel, Op, Run, pure, exit, crash, starve, call, ◌>>=◌,
  ◌>>◌,
}

-- However `m` ends, it leaves a state with `P` if it begins in one.
pub record Keeps {S A : Type 0} (P : S → Type 0) (m : Run S A) : Type 0 where
  pub at : (s : S) → P s → P (m s).1

-- The same for a system call.
pub record KeepsOp {S A : Type 0} (P : S → Type 0) (op : Op S A) : Type 0 where
  pub at : (s : S) → P s → P (op s).1

module _ {S A : Type 0} {P : S → Type 0} where
  pub Keeps-pure : (a : A) → Keeps P (pure a)
  unfolding pure
  Keeps-pure a = record { at = λ s h. h }

  pub Keeps-exit : (n : ℕ) → Keeps P (exit {A = A} n)
  unfolding exit
  Keeps-exit n = record { at = λ s h. h }

  pub Keeps-crash : Keeps P (crash {A = A})
  unfolding crash
  Keeps-crash = record { at = λ s h. h }

  pub Keeps-starve : Keeps P (starve {A = A})
  unfolding starve
  Keeps-starve = record { at = λ s h. h }

  pub Keeps-call : {op : Op S A} → KeepsOp P op → Keeps P (call op)
  unfolding call
  Keeps-call k = record { at = λ s h. k.at s h }

  -- The then branch may use that its test passed.
  pub Keeps-if :
      (test : Bool) (yes_run no_run : Run S A)
      → (test ≡ true → Keeps P yes_run)
      → Keeps P no_run
      → Keeps P (if test then yes_run else no_run)
  Keeps-if true yes_run no_run k _ = k refl
  Keeps-if false yes_run no_run _ k = k

module _ {S A B : Type 0} {P : S → Type 0} where
  Keeps-continue :
      (outcome : Outcome A) (next : A → Run S B) (now : S)
      → ((a : A) → Keeps P (next a))
      → P now
      → P (system_sw_gui_project.Run.continue outcome next now).1
  Keeps-continue (done a) next now k h = (k a).at now h
  Keeps-continue (exited n) next now k h = h
  Keeps-continue crashed next now k h = h
  Keeps-continue out_of_fuel next now k h = h

  pub Keeps-bind :
      (first : Run S A) (next : A → Run S B)
      → Keeps P first
      → ((a : A) → Keeps P (next a))
      → Keeps P (first >>= next)
  unfolding ◌>>=◌
  Keeps-bind first next k after = record {
    at = λ before h. Keeps-continue (first before).0 next (first before).1 after (k.at before h);
  }

pub ruleset keeps_rules =
    (Keeps-pure, Keeps-exit, Keeps-crash, Keeps-starve, Keeps-call, Keeps-if, Keeps-bind)
