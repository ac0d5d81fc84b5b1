-- ===== src/Ipc/Steps.antt =====
-- A parent and the child it has forked, which move one call at a time in any order. A program of
-- IPC/ gives the moves of both, over the state that the kernel keeps for them.
use system_sw_gui_project.Prelude.{ℕ, suc, List, ◌++◌, Text}

-- `shown` is what the child has printed.
pub record System (S A B : Type 0) : Type 0 where
  pub parent : A
  pub child : B
  pub shared : S
  pub shown : List Text

-- A move of the parent may depend on where the child is, since wait does.
module _ {S A B : Type 0} (P : B → S → A → A → S → Type 0)
    (C : S → B → B → S → List Text → Type 0) where
  pub data Step (s : System S A B) : System S A B → Type 0 where
    parent_moves :
        {p : A} {h : S}
        → P s.child s.shared s.parent p h
        → Step s (record s { parent = p; shared = h })
    child_moves :
        {c : B} {h : S} {lines : List Text}
        → C s.shared s.child c h lines
        → Step s (record s { child = c; shared = h; shown = s.shown ++ lines })

  -- What is reached from a state in a number of steps.
  pub data Reach (from : System S A B) : ℕ → System S A B → Type 0 where
    start : Reach from 0 from
    later : {n : ℕ} {s t : System S A B} → Reach from n s → Step s t → Reach from (suc n) t

  -- An invariant of the steps holds in every reachable state.
  pub Reach-keeps :
      (I : ℕ → System S A B → Type 0) {from : System S A B}
      → I 0 from
      → ((n : ℕ) (s t : System S A B) → I n s → Step s t → I (suc n) t)
      → (n : ℕ) (s : System S A B) → Reach from n s
      → I n s
  Reach-keeps I first each _ _ start = first
  Reach-keeps I first each _ _ (later {n} {s} {t} r st) =
      each n s t (Reach-keeps I first each n s r) st
