-- ===== src/Backend/Serves/Order.antt =====
-- The loop of backend.c handles the requests of the queue one after the other.
use system_sw_gui_project.Prelude.{
  ℕ, zero, suc, ◌<◌, ◌≡◌, refl, true, false, List, [], ◌∷◌, ◌++◌, length, All, arith,
}
use system_sw_gui_project.Run.{
  Outcome, done, exited, crashed, out_of_fuel, Run, continue, call, ◌>>=◌, ◌>>◌,
}
use system_sw_gui_project.Run.Keeps.{Keeps, Keeps-bind}
use system_sw_gui_project.Backend.Calls.{Calls, Message, note}
use system_sw_gui_project.Backend.Requests.{handle, is_quit, serve}
use system_sw_gui_project.Backend.Serves.{Serial, serve_each}
use system_sw_gui_project.Backend.Serves.Handlers.{note-Kept, handle-Kept}

module _ (K : Calls) (depth fuel r msgid : ℕ) (queued : K.State → List Message)
    (k : Serial K msgid queued) where
  -- The message that ends the loop.
  last_round :
      (rounds : ℕ) (quit : Message) (rest : List Message) (s : K.State)
      → is_quit K depth fuel r quit ≡ true
      → queued s ≡ quit ∷ rest
      → serve K depth fuel r (suc rounds) msgid s ≡ serve_each K depth fuel r msgid [] s
  unfolding serve serve_each call ◌>>=◌
  last_round rounds quit rest s e h = rw ((k.taken quit rest s h).0, e) refl

  same_after :
      (o : Outcome (Unit {0})) (f g : Run K.State (Unit {0})) (u : K.State)
      → f u ≡ g u
      → continue o (λ _. f) u ≡ continue o (λ _. g) u
  same_after (done tt) f g u e = e
  same_after (exited n) f g u e = refl
  same_after crashed f g u e = refl
  same_after out_of_fuel f g u e = refl

  -- A run that goes on the same way after every state that it can return with.
  continue_same :
      (m : Run K.State (Unit {0})) (f g : Run K.State (Unit {0})) (P : K.State → Type 0)
      (s : K.State)
      → Keeps P m
      → P s
      → ((u : K.State) → P u → f u ≡ g u)
      → (m >> f) s ≡ (m >> g) s
  unfolding ◌>>=◌
  continue_same m f g P s kept h same = same_after (m s).0 f g (m s).1 (same _ (kept.at s h))

  -- The loop handles the requests that are queued before the message QUIT, each once and in the
  -- order of the queue, and then stops, where more calls of msgrcv are allowed than there are
  -- requests, a call of msgrcv takes the first message without fail, and no other call takes one.
  pub serve-each :
      (bufs : List Message) (rounds : ℕ) (quit : Message) (rest : List Message) (s : K.State)
      → length bufs < rounds
      → All (λ buf. is_quit K depth fuel r buf ≡ false) bufs
      → is_quit K depth fuel r quit ≡ true
      → queued s ≡ bufs ++ quit ∷ rest
      → serve K depth fuel r rounds msgid s ≡ serve_each K depth fuel r msgid bufs s
  unfolding serve serve_each call ◌>>=◌
  serve-each bufs zero quit rest s l a e h = absurd (omega (arith, l))
  serve-each [] (suc rounds) quit rest s l a e h = last_round rounds quit rest s e h
  serve-each (buf ∷ bufs) (suc rounds) quit rest s l (n, a) e h =
      let (taken, left) = k.taken buf (bufs ++ quit ∷ rest) s h in
      let q = bufs ++ quit ∷ rest in
      rw (taken, n)
        (continue_same (note K "Received delete request for: %s\n" >> handle K depth fuel r buf)
          (serve K depth fuel r rounds msgid) (serve_each K depth fuel r msgid bufs)
          (λ u. queued u ≡ q) (K.msgrcv msgid s).1
          (Keeps-bind _ _ (note-Kept K depth fuel r msgid queued k q _)
            (λ _. handle-Kept K depth fuel r msgid queued k q buf))
          left (λ u i. serve-each bufs rounds quit rest u (omega (arith, l)) a e i))
