-- ===== src/Ai/Chat/Tasks/Alone.antt =====
-- A chat of launcher/xlpod-server/src/routes.rs that no other task interrupts.
use xlpod.Ai.Chat.Tasks.Loop.{Runs, here, closed, respond, Runs-turns}
use xlpod.Common.{◌≡◌, refl, inl, inr, false, Bool-cases, contains, text_eq}
use xlpod.Auth.{Result, ok, err}
use xlpod.Ai.Types.{ChatRequest}
use xlpod.Ai.Session.{Session, get_session}
use xlpod.Ai.Cost.{over_budget}
use xlpod.Ai.Chat.{append, get, Final, no_final, max_turns, turns, converse, ai_chat}
use xlpod.Ai.Chat.Tasks.{entry, Task, next_turn, settle, begin_chat}
use xlpod.System.{Env, World, Outcome, done, failed, ◌>>=◌, pure, then_with, lift}

module _ (env : Env) (body : ChatRequest) where
  -- The state and the answer of a request to `/ai/chat` that runs as a whole.
  abbrev pub whole : World → World × Task
  whole w = closed (λ r. r) (ai_chat env body w)

  closing :
      (session : Session) (o : Outcome Final)
      → closed (respond session) o
        ≡ closed (λ r. r) (then_with (λ fin. pure (respond session fin)) o)
  closing session (done fin x) = refl
  closing session (failed e x) = refl

  conversed :
      (w : World) (o : Outcome (Unit {0})) (session : Session)
      → Runs env
          (closed
            (λ r. r)
            (then_with
              (λ u. get session.id >>= λ current.
                turns env session body max_turns current.messages no_final >>= λ fin.
                pure (respond session fin))
              o))
          (settle
            (λ t. t)
            (then_with
              (λ u. get session.id >>= λ current.
                pure (next_turn session body max_turns current.messages no_final))
              o))
  unfolding get
  conversed w (failed e x) session = here refl
  conversed w (done u x) session = go (get_session session.id x.sessions)
    where
      go :
          (r : Result Session)
          → Runs env
              (closed
                (λ r. r)
                (then_with
                  (λ current. turns env session body max_turns current.messages no_final >>= λ fin.
                    pure (respond session fin))
                  (lift r x)))
              (settle
                (λ t. t)
                (then_with
                  (λ current. pure (next_turn session body max_turns current.messages no_final))
                  (lift r x)))
      go (err e) = here refl
      go (ok s) =
          Runs-turns env _ session body max_turns s.messages no_final x
            (here (closing session (turns env session body max_turns s.messages no_final x)))

  -- Run with no interruption, from the start of the request through all its waits, the task comes
  -- to an end, with the state and the answer that the handler as a whole gives.
  pub begin_chat-Runs-whole : (w : World) → Runs env (whole w) (begin_chat env body w)
  unfolding begin_chat entry ai_chat converse get
  begin_chat-Runs-whole w = elim (Bool-cases (over_budget w.cost)) [
    | inl over ↦ rw over (here refl)
    | inr under ↦ known under (get_session body.session_id w.sessions) refl
  ]
    where
      known :
          over_budget w.cost ≡ false
          → (r : Result Session) → get_session body.session_id w.sessions ≡ r
          → Runs env (whole w) (begin_chat env body w)
      known under (err x) e = rw (under, e) (here refl)
      known under (ok session) e = elim (Bool-cases (contains env.providers session.provider)) [
        | inl listed ↦
            rw (under, e, listed) (conversed w (append session.id body.messages w) session)
        | inr missing ↦ rw (under, e, missing) (here refl)
      ]
