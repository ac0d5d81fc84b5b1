-- ===== src/Client/Requests.antt =====
-- What becomes of a request: its text as backend.c takes it apart, and what backend.c then does.
use system_sw_gui_project.Prelude.{
  ℕ, zero, suc, ◌+◌, ◌≤◌, ◌≡◌, ◌≢◌, refl, ap, ◌∙◌, true, none, some, List, [], ◌∷◌, Text, length,
  length-append, arith,
}
use system_sw_gui_project.Libc.Strings.{tokens, truncate, emit, Free, tokens-append, tokens-Free}
use system_sw_gui_project.Run.{Outcome, continue, crashed, Run, skip, ◌>>=◌, pure, crash}
use system_sw_gui_project.Backend.Calls.{Calls}
use system_sw_gui_project.Backend.Files.{is_dollar}
use system_sw_gui_project.Backend.Requests.{handle, with_tokens, move, copy, change_mode, favorite}
use system_sw_gui_project.Client.Session.{Desktop, UserData, Session}
use system_sw_gui_project.Client.Send.{
  joined, request, favorite_request, refused, send_key, send_message,
}
use system_sw_gui_project.Client.Callbacks.{
  free_message, request_and_free, delete_response, on_delete_response,
}

pub truncate_short : (n : ℕ) (s : Text) → length s ≤ n → truncate n s ≡ s
unfolding truncate
truncate_short zero [] h = refl
truncate_short zero (c ∷ s) h = absurd (omega (arith, h))
truncate_short (suc n) [] h = refl
truncate_short (suc n) (c ∷ s) h = ap (λ t. c ∷ t) (truncate_short n s (omega (arith, h)))

emit_token : (t : Text) (ts : List Text) → t ≢ [] → emit t ts ≡ t ∷ ts
emit_token [] ts h = absurd (h refl)
emit_token (c ∷ t) ts h = refl

-- A path that a request can carry: not empty, and free of the separator.
abbrev pub IsPart : Text → Type 0
IsPart t = (t ≢ []) × Free is_dollar t

length-joined : (a b : Text) → length (joined a b) ≡ length a + suc (length b)
unfolding joined
length-joined a b = length-append a (b'$' ∷ b)

joined_fits :
    (n : ℕ) (a b : Text)
    → length a + length b ≤ 254
    → 255 ≤ n
    → truncate n (joined a b) ≡ joined a b
joined_fits n a b h k = truncate_short n (joined a b) (omega (arith, length-joined a b, h, k))

tokens-joined : (a b : Text) → IsPart a → IsPart b → tokens is_dollar (joined a b) ≡ a ∷ b ∷ []
unfolding joined
tokens-joined a b (x, f) (y, g) =
    tokens-append is_dollar a b b'$' f refl
    ∙ ap (emit a) (tokens-Free is_dollar b g ∙ emit_token b [] y)
    ∙ emit_token a (b ∷ []) x

pub tokens-request :
    (t : ℕ) (a b : Text)
    → IsPart a
    → IsPart b
    → length a + length b ≤ 254
    → tokens is_dollar (request t (joined a b)).mtext ≡ a ∷ b ∷ []
unfolding request
tokens-request t a b p q h =
    ap (tokens is_dollar) (joined_fits 255 a b h (omega arith)) ∙ tokens-joined a b p q

favorite-request :
    (a b : Text) → length a + length b ≤ 254 → favorite_request a b ≡ request 8 (joined a b)
unfolding favorite_request
favorite-request a b h = ap (request 8) (joined_fits 511 a b h (omega arith))

module _ (K : Calls) (depth fuel queue : ℕ) where
  handle_two :
      (t : ℕ) (a b : Text) (f : Text → Text → Run K.State (Unit {0}))
      → tokens is_dollar (request t (joined a b)).mtext ≡ a ∷ b ∷ []
      → with_tokens K depth fuel queue f (tokens is_dollar (request t (joined a b)).mtext) ≡ f a b
  unfolding with_tokens
  handle_two t a b f e = ap (with_tokens K depth fuel queue f) e

  -- For two paths that are not empty, have no dollar sign in them and have at most 254 bytes
  -- together, the requests that the callbacks send make the backend do with these two paths what
  -- the request asks for: move, copy, change the mode, and add to the favorites.
  pub handle-request :
      (a b : Text)
      → IsPart a
      → IsPart b
      → length a + length b ≤ 254
      → (handle K depth fuel queue (request 5 (joined a b)) ≡ move K depth fuel queue a b)
        × (handle K depth fuel queue (request 6 (joined a b)) ≡ copy K depth fuel queue a b)
        × (handle K depth fuel queue (request 7 (joined a b)) ≡ change_mode K depth fuel queue a b)
        × (handle K depth fuel queue (favorite_request a b) ≡ favorite K depth fuel queue a b)
  unfolding handle request
  handle-request a b p q h = (
    handle_two 5 a b _ (tokens-request 5 a b p q h),
    handle_two 6 a b _ (tokens-request 6 a b p q h),
    handle_two 7 a b _ (tokens-request 7 a b p q h),
    ap (handle K depth fuel queue) (favorite-request a b h)
        ∙ handle_two 8 a b _ (tokens-request 8 a b p q h),
  )

  -- For a path that is not empty, has no dollar sign in it and has at most 254 bytes, the backend
  -- does nothing and answers nothing on the request with an empty mode.
  pub empty_mode_ignored :
      (a : Text)
      → IsPart a
      → length a ≤ 254
      → handle K depth fuel queue (request 7 (joined a [])) ≡ skip
  unfolding handle request with_tokens joined tokens
  empty_mode_ignored a (x, f) h =
      let shown = joined_fits 255 a [] (omega (arith, h)) (omega arith) in
      let one = tokens-append is_dollar a [] b'$' f refl ∙ emit_token a [] x in
      ap (with_tokens K depth fuel queue (change_mode K depth fuel queue))
        (ap (tokens is_dollar) shown ∙ one)

continue_crashed :
    {S A B : Type 0} (r : Outcome A) (f : A → Run S B) (s : S)
    → r ≡ crashed
    → (continue r f s).0 ≡ crashed
continue_crashed r f s e = rw e refl

module _ (D : Desktop) (no_key : (p : Text) (s : D.State) → (D.ftok p s).0 ≡ none) where
  request_and_free_crashed :
      (t : ℕ) (text : Text) (s : Session D) → (request_and_free D t text s).0 ≡ crashed
  unfolding request_and_free send_message send_key refused free_message ◌>>=◌ pure crash
  request_and_free_crashed t text (u, s) = rw (no_key _ s) refl

  delete_response_crashed :
      (u : UserData) (s : D.State) (name : Text)
      → (delete_response D true (some name) (u, s)).0 ≡ crashed
  unfolding delete_response ◌>>=◌
  delete_response_crashed u s name =
      continue_crashed _ _ _ (request_and_free_crashed 2 _ (u, (D.path_text s).1))

  -- If ftok always fails, a confirmed deletion of a selected file ends with the g_free of a path
  -- that send_message has freed.
  pub on_delete_response_crashed :
      (u : UserData) (s : D.State) (name : Text)
      → u.selected_file_info ≡ some name
      → (on_delete_response D true (u, s)).0 ≡ crashed
  unfolding on_delete_response ◌>>=◌
  on_delete_response_crashed u s name e =
      ap (λ o. (delete_response D true o (u, s)).0) e ∙ delete_response_crashed u s name
