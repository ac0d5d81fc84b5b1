-- ===== src/Backend/Answers.antt =====
-- How many responses a request gets.
use system_sw_gui_project.Prelude.{
  String, ℕ, suc, ◌≤◌, ◌≡◌, refl, Bool, true, false, List, [], ◌∷◌, ◌==◌, ap, ◌∙◌, if◌then◌else◌,
  Text, codes, arith,
}
use system_sw_gui_project.Libc.Strings.{str_eq, tokens}
use system_sw_gui_project.Libc.Numbers.{strtol_octal}
use system_sw_gui_project.Run.{Op, Run, done, call, ◌>>=◌, ◌>>◌, skip}
use system_sw_gui_project.Run.Keeps.{Keeps, KeepsOp, Keeps-pure, Keeps-call, Keeps-bind}
use system_sw_gui_project.Run.Returns.{
  Returns, Returns-pure, Returns-call, returns_rules, bind_done,
}
use system_sw_gui_project.Backend.Calls.{
  Calls, Made, made, eexist, failed, Message, note, response, send_response,
}
use system_sw_gui_project.Backend.Files.{is_dollar, move_directory, copy_file}
use system_sw_gui_project.Backend.Allows.{Allows}
use system_sw_gui_project.Backend.Allows.Files.{move_directory-Keeps, copy_file-Keeps}
use system_sw_gui_project.Backend.Ends.{Finite}
use system_sw_gui_project.Backend.Ends.Trees.{move_directory-Returns, copy_file-Returns}
use system_sw_gui_project.Backend.Requests.{
  succeed, fail, answer, is_directory, answer_moved, move, copy, answer_changed, change_mode,
  linked, link_again, is_missing, favorite, with_tokens, handle,
}

none_left :
    (t : ℕ)
    → 5 ≤ t
    → t ≤ 8
    → (t == 5) ≡ false
    → (t == 6) ≡ false
    → (t == 7) ≡ false
    → (t == 8) ≡ false
    → ⊥
none_left t l u e₅ e₆ e₇ e₈ = ground arith

-- `sent` counts the calls of msgsnd: no other call changes it.
pub record Counted (K : Calls) (sent : K.State → ℕ) : Type 0 where
  pub quiet : (c : ℕ) → Allows K (λ s. sent s ≡ c) (λ _. Unit)
  pub symlink : (c : ℕ) (p q : Text) → KeepsOp (λ s. sent s ≡ c) (K.symlink p q)
  pub msgsnd : (q : ℕ) (m : Message) (s : K.State) → sent (K.msgsnd q m s).1 ≡ suc (sent s)

module _ (K : Calls) (sent : K.State → ℕ) (n : Counted K sent) where
  -- The run returns, and sends nothing.
  pub record Quiet {A : Type 0} (m : Run K.State A) : Type 0 where
    pub returns : Returns m
    pub keeps : (c : ℕ) → Keeps (λ s. sent s ≡ c) m

  -- The run returns, and sends one message.
  pub record Once (m : Run K.State (Unit {0})) : Type 0 where
    pub at : (s : K.State) → ((m s).0 ≡ done tt) × (sent (m s).1 ≡ suc (sent s))

  Quiet-call :
      {A : Type 0} (op : Op K.State A) → ((c : ℕ) → KeepsOp (λ s. sent s ≡ c) op) → Quiet (call op)
  Quiet-call op k = record { returns = Returns-call op; keeps = λ c. Keeps-call (k c) }

  Quiet-note : (t : String) → Quiet (note K t)
  unfolding note
  Quiet-note t = Quiet-call (K.log t) (λ c. (n.quiet c).log t)

  Once-bind :
      {A : Type 0} (m : Run K.State A) (f : A → Run K.State (Unit {0}))
      → Quiet m
      → ((a : A) → Once (f a))
      → Once (m >>= f)
  Once-bind m f q o = record {
    at = λ s.
        let (a, e) = q.returns.at s in
        let (d, c) = (o a).at (m s).1 in
        rw (bind_done m f s a e) (d, c ∙ ap suc ((q.keeps (sent s)).at s refl));
  }

  Once-if :
      (b : Bool) (m m' : Run K.State (Unit {0}))
      → (b ≡ true → Once m)
      → (b ≡ false → Once m')
      → Once (if b then m else m')
  Once-if true m m' k k' = k refl
  Once-if false m m' k k' = k' refl

  send_response-Once : (q t : ℕ) (text : Text) → Once (send_response K q t text)
  unfolding send_response note call ◌>>=◌
  send_response-Once q t text = record {
    at = λ s.
        let s' = (K.msgsnd q (response K t text) s).1 in
        (refl, ((n.quiet (suc (sent s))).log _).at s' (n.msgsnd q _ s));
  }

  module _ (depth fuel queue : ℕ) (e : 4096 ≤ depth) (h : Finite K fuel) where
    succeed-Once : (good : String) → Once (note K good >> succeed K depth fuel queue)
    unfolding succeed
    succeed-Once good = Once-bind _ _ (Quiet-note good) (λ _. send_response-Once queue _ _)

    fail-Once : (bad : String) → Once (note K bad >> fail K depth fuel queue)
    unfolding fail
    fail-Once bad = Once-bind _ _ (Quiet-note bad) (λ _. send_response-Once queue _ _)

    answer-Once : (good bad : String) (b : Bool) → Once (answer K depth fuel queue good bad b)
    unfolding answer
    answer-Once good bad true = succeed-Once good
    answer-Once good bad false = fail-Once bad

    stat-Quiet : (p : Text) → Quiet (call (K.stat p))
    stat-Quiet p = Quiet-call (K.stat p) (λ c. (n.quiet c).stat p)

    moved-Quiet : (p q : Text) → Quiet (move_directory K depth fuel p q)
    moved-Quiet p q = record {
      returns = move_directory-Returns K fuel h depth p q (omega (arith, e), omega (arith, e));
      keeps = λ c. move_directory-Keeps K _ _ (n.quiet c) depth fuel p q tt tt;
    }

    copied-Quiet : (p q : Text) → Quiet (copy_file K depth fuel p q)
    copied-Quiet p q = record {
      returns = copy_file-Returns K fuel h depth p q (omega (arith, e), omega (arith, e));
      keeps = λ c. copy_file-Keeps K _ _ (n.quiet c) depth fuel p q tt;
    }

    move-Once : (p q : Text) → Once (move K depth fuel queue p q)
    unfolding move answer_moved answer
    move-Once p q = Once-bind _ _ (stat-Quiet _) (λ found.
        Once-if (is_directory K depth fuel queue found) _ _
          (λ _.
            Once-bind _ _ (Quiet-call (K.rename p q) (λ c. (n.quiet c).rename p q tt tt))
              (λ renamed.
                Once-if renamed _ _ (λ _. succeed-Once _)
                  (λ _. Once-bind _ _ (moved-Quiet p q) (answer-Once _ _))))
          (λ _. fail-Once _))

    copy-Once : (p q : Text) → Once (copy K depth fuel queue p q)
    unfolding copy answer
    copy-Once p q = Once-bind _ _ (stat-Quiet _) (λ found.
        Once-if (is_directory K depth fuel queue found) _ _
          (λ _. Once-bind _ _ (copied-Quiet p q) (answer-Once _ _)) (λ _. fail-Once _))

    change_mode-Once : (p m : Text) → Once (change_mode K depth fuel queue p m)
    unfolding change_mode answer_changed answer
    change_mode-Once p m =
        Once-if (str_eq (strtol_octal m).rest []) _ _
          (λ _.
            Once-bind _ _ (Quiet-call (K.chmod p _) (λ c. (n.quiet c).chmod p _ tt))
              (answer-Once _ _))
          (λ _. fail-Once _)

    linked-Once : (m : Made) → Once (linked K depth fuel queue m)
    unfolding linked answer
    linked-Once made = succeed-Once _
    linked-Once eexist = fail-Once _
    linked-Once failed = fail-Once _

    symlink-Quiet : (p q : Text) → Quiet (call (K.symlink p q))
    symlink-Quiet p q = Quiet-call (K.symlink p q) (λ c. n.symlink c p q)

    link_again-Once : (p q : Text) (m : Made) → Once (link_again K depth fuel queue p q m)
    unfolding link_again answer
    link_again-Once p q made = succeed-Once _
    link_again-Once p q failed = fail-Once _
    link_again-Once p q eexist =
        Once-bind _ _ (Quiet-call (K.unlink q) (λ c. (n.quiet c).unlink q tt))
          (λ _. Once-bind _ _ (symlink-Quiet p q) linked-Once)

    made-Quiet :
        (b : Bool) → Quiet (if b then call (K.mkdir (codes "/tmp/link") 0o755) >> skip else skip)
    made-Quiet true = record {
      returns = search returns_rules;
      keeps = λ c. Keeps-bind _ _ (Keeps-call ((n.quiet c).mkdir _ _ tt)) (λ _. Keeps-pure tt);
    }
    made-Quiet false = record { returns = Returns-pure tt; keeps = λ c. Keeps-pure tt }

    favorite-Once : (p q : Text) → Once (favorite K depth fuel queue p q)
    unfolding favorite
    favorite-Once p q = Once-bind _ _ (stat-Quiet _) (λ found.
        Once-bind _ _ (made-Quiet (is_missing K depth fuel queue found))
          (λ _. Once-bind _ _ (symlink-Quiet p q) (link_again-Once p q)))

    with_tokens-Once :
        (f : Text → Text → Run K.State (Unit {0})) (ts rest : List Text) (p q : Text)
        → ts ≡ p ∷ q ∷ rest
        → Once (f p q)
        → Once (with_tokens K depth fuel queue f ts)
    unfolding with_tokens
    with_tokens-Once f ts rest p q e o = rw e o

    pub handle-Once :
        (t : ℕ) (text p q : Text) (rest : List Text)
        → 5 ≤ t
        → t ≤ 8
        → tokens is_dollar text ≡ p ∷ q ∷ rest
        → Once (handle K depth fuel queue (record { mtype = t; mtext = text }))
    unfolding handle
    handle-Once t text p q rest l u d =
        Once-if (t == 2) _ _ (λ i. absurd (ground arith))
          (λ _.
            Once-if (t == 3) _ _ (λ i. absurd (ground arith))
              (λ _.
                Once-if (t == 4) _ _ (λ i. absurd (ground arith))
                  (λ _.
                    Once-if (t == 5) _ _ (λ _. with_tokens-Once _ _ rest p q d (move-Once p q))
                      (λ e₅.
                        Once-if (t == 6) _ _ (λ _. with_tokens-Once _ _ rest p q d (copy-Once p q))
                          (λ e₆.
                            Once-if (t == 7) _ _
                              (λ _. with_tokens-Once _ _ rest p q d (change_mode-Once p q))
                              (λ e₇.
                                Once-if (t == 8) _ _
                                  (λ _. with_tokens-Once _ _ rest p q d (favorite-Once p q))
                                  (λ e₈. absurd (none_left t l u e₅ e₆ e₇ e₈))))))))

  -- A request to move, copy, change a mode or add a link whose text has two tokens is handled in
  -- finitely many steps and sends exactly one response. The conditions: only msgsnd counts as
  -- sending, the depth is 4096 at least, the fuel is more than a source file has bytes when it is
  -- opened and each chunk leaves fewer, stat finds no directory by a path of more than 4093 bytes,
  -- and directories have no empty names.
  pub handle_answers :
      (depth fuel queue : ℕ)
      → 4096 ≤ depth
      → Finite K fuel
      → (t : ℕ) (text p q : Text) (rest : List Text) → 5 ≤ t
      → t ≤ 8
      → tokens is_dollar text ≡ p ∷ q ∷ rest
      → (s : K.State)
      → ((handle K depth fuel queue (record { mtype = t; mtext = text }) s).0 ≡ done tt)
        × (sent (handle K depth fuel queue (record { mtype = t; mtext = text }) s).1 ≡ suc (sent s))
  handle_answers depth fuel queue e h t text p q rest l u d s =
      (handle-Once depth fuel queue e h t text p q rest l u d).at s
