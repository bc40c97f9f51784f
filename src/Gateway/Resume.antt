-- ===== src/Gateway/Resume.antt =====
-- When a session is resumed, and with which ids.
use patrice.Prelude.{
  ℕ, ◌≡◌, refl, String, Bool, true, false, Option, none, some, List, [], ◌∷◌, arith, All, any,
  any-append, ap, sym, subst, ◌∙◌, if◌then◌else◌,
}
use patrice.Gateway.{
  GatewayContext, GatewayEvent, GatewayAction, open_socket, ready_event, close, dispatch,
  invalid_session, send_resume, is_non_resumable, truthy, resumable, handle, run,
}

resumable_sound :
    (session : Option String) (seq : Option ℕ) (s : String) (q : ℕ)
    → resumable session seq ≡ some (s, q)
    → (session ≡ some s) × (seq ≡ some q) × (truthy s ≡ true)
unfolding resumable
resumable_sound session seq s q h = ground arith

-- The events of a connection, each with the value of `Math.random()` in it.
abbrev pub Events : Type 0 → Type 0
Events Payload = List (GatewayEvent Payload × ℕ)

module _ {Payload : Type 0} where
  -- The last session that READY announced and no event has ended since, by the events alone.
  abbrev pub last_session : Option String → Events Payload → Option String
  last_session session [] = session
  last_session session ((ready_event s url, _) ∷ rest) = last_session (some s) rest
  last_session session ((close code, _) ∷ rest) =
      last_session (if is_non_resumable code then none else session) rest
  last_session session ((invalid_session can_resume, _) ∷ rest) =
      last_session (if can_resume then session else none) rest
  last_session session ((_, _) ∷ rest) = last_session session rest

  -- The sequence number of the last dispatch since a session was ended.
  abbrev pub last_sequence : Option ℕ → Events Payload → Option ℕ
  last_sequence seq [] = seq
  last_sequence seq ((dispatch q name payload, _) ∷ rest) = last_sequence (some q) rest
  last_sequence seq ((close code, _) ∷ rest) =
      last_sequence (if is_non_resumable code then none else seq) rest
  last_sequence seq ((invalid_session can_resume, _) ∷ rest) =
      last_sequence (if can_resume then seq else none) rest
  last_sequence seq ((_, _) ∷ rest) = last_sequence seq rest

  -- An event moves both ids as it alone does.
  handle_remembers :
      (ctx : GatewayContext) (event : GatewayEvent Payload) (token : String) (random : ℕ)
      → let next = (handle ctx event token random).0 in
        (next.session_id ≡ last_session ctx.session_id ((event, random) ∷ []))
        × (next.sequence_number ≡ last_sequence ctx.sequence_number ((event, random) ∷ []))
  unfolding handle
  handle_remembers ctx open_socket token random = (refl, refl)
  handle_remembers ctx _ token random = ground arith

  last_session-cons :
      (session : Option String) (e : GatewayEvent Payload × ℕ) (rest : Events Payload)
      → last_session session (e ∷ rest) ≡ last_session (last_session session (e ∷ [])) rest
  last_session-cons session (open_socket, _) rest = refl
  last_session-cons session (_, _) rest = refl

  last_sequence-cons :
      (seq : Option ℕ) (e : GatewayEvent Payload × ℕ) (rest : Events Payload)
      → last_sequence seq (e ∷ rest) ≡ last_sequence (last_sequence seq (e ∷ [])) rest
  last_sequence-cons seq (open_socket, _) rest = refl
  last_sequence-cons seq (_, _) rest = refl

  run_remembers :
      (ctx : GatewayContext) (token : String) (events : Events Payload)
      → ((run ctx token events).0.session_id ≡ last_session ctx.session_id events)
        × ((run ctx token events).0.sequence_number ≡ last_sequence ctx.sequence_number events)
  unfolding run
  run_remembers ctx token [] = (refl, refl)
  run_remembers ctx token ((event, random) ∷ rest) =
      let next = (handle ctx event token random).0 in
      let (session, seq) = handle_remembers ctx event token random in
      let (later, later_seq) = run_remembers next token rest in
      (
        later
            ∙ ap (λ s. last_session s rest) session
            ∙ sym (last_session-cons ctx.session_id (event, random) rest),
        later_seq
            ∙ ap (λ q. last_sequence q rest) seq
            ∙ sym (last_sequence-cons ctx.sequence_number (event, random) rest),
      )

  -- An action that resumes names this session, not empty, and this sequence number.
  abbrev pub Resumes : Option String → Option ℕ → String → GatewayAction Payload → Type 0
  Resumes session seq token (send_resume t s q) =
      (t ≡ token) × (session ≡ some s) × (seq ≡ some q) × (truthy s ≡ true)
  Resumes session seq token _ = Unit

  handle-Resumes :
      (ctx : GatewayContext) (event : GatewayEvent Payload) (token : String) (random : ℕ)
      → All (Resumes ctx.session_id ctx.sequence_number token) (handle ctx event token random).1
  unfolding handle resumable
  handle-Resumes ctx open_socket token random = tt
  handle-Resumes ctx _ token random = ground arith

  -- After any events from a context, a resume is sent only for the session that READY announced last, or
  -- that the context had if none was announced, which is not empty and no later event has ended; and at
  -- the sequence number of the last dispatch, or of the context if there was none, since a session was
  -- ended.
  pub run-Resumes :
      (ctx : GatewayContext) (events : Events Payload) (event : GatewayEvent Payload)
      (token : String) (random : ℕ)
      → All
          (Resumes
            (last_session ctx.session_id events)
            (last_sequence ctx.sequence_number events)
            token)
          (handle (run ctx token events).0 event token random).1
  run-Resumes ctx events event token random =
      let now = (run ctx token events).0 in
      let (session, seq) = run_remembers ctx token events in
      subst
        (λ q.
          All (Resumes (last_session ctx.session_id events) q token)
            (handle now event token random).1)
        seq
        (subst (λ s. All (Resumes s now.sequence_number token) (handle now event token random).1)
          session (handle-Resumes now event token random))

  abbrev pub is_resume : GatewayAction Payload → Bool
  is_resume (send_resume t s q) = true
  is_resume _ = false

  abbrev pub is_ready_event : GatewayEvent Payload → Bool
  is_ready_event (ready_event s url) = true
  is_ready_event _ = false

  handle_forgotten :
      (ctx : GatewayContext) (event : GatewayEvent Payload) (token : String) (random : ℕ)
      → ctx.session_id ≡ none
      → is_ready_event event ≡ false
      → ((handle ctx event token random).0.session_id ≡ none)
        × (any is_resume (handle ctx event token random).1 ≡ false)
  unfolding handle resumable
  handle_forgotten ctx open_socket token random h k = (h, refl)
  handle_forgotten ctx _ token random h k = ground arith

  run_forgotten :
      (ctx : GatewayContext) (token : String) (events : List (GatewayEvent Payload × ℕ))
      → ctx.session_id ≡ none
      → any (λ e. is_ready_event e.0) events ≡ false
      → any is_resume (run ctx token events).1 ≡ false
  unfolding run
  run_forgotten ctx token [] h k = refl
  run_forgotten ctx token ((event, random) ∷ rest) h k =
      let (gone, quiet) = handle_forgotten ctx event token random h (ground arith) in
      ground (
        arith,
        gone,
        quiet,
        any-append is_resume (handle ctx event token random).1
            (run (handle ctx event token random).0 token rest).1,
        run_forgotten (handle ctx event token random).0 token rest gone (ground arith),
      )

  -- After a close with a code that cannot be resumed, no event but READY leads to a resume: until
  -- a new session is announced, whatever the socket delivers, no resume is sent.
  pub close_non_resumable :
      (ctx : GatewayContext) (token : String) (code random : ℕ)
      (events : List (GatewayEvent Payload × ℕ))
      → is_non_resumable code ≡ true
      → any (λ e. is_ready_event e.0) events ≡ false
      → any is_resume
          (run (handle {Payload = Payload} ctx (close code) token random).0 token events).1
        ≡ false
  unfolding handle
  close_non_resumable ctx token code random events h k =
      run_forgotten (handle {Payload = Payload} ctx (close code) token random).0 token events
        (ground arith) k
