-- ===== src/Ai/Chat/Tasks/Loop.antt =====
-- The loop of a chat of launcher/xlpod-server/src/routes.rs that no other task interrupts.
use xlpod.Common.{
  ℕ, zero, suc, ◌≡◌, inl, inr, List, [], ◌∷◌, ◌++◌, Bool-cases, is_empty, if◌then◌else◌, text_eq,
}
use xlpod.Auth.{ok, err}
use xlpod.Ai.Types.{ContentBlock, tool, ChatMessage, ChatRequest, ChatResponse}
use xlpod.Ai.Session.{Session}
use xlpod.Ai.Dispatch.{execute_tool_use}
use xlpod.Ai.Chat.{
  append, charge, ToolUse, tool_uses, run_tools, Final, message_of, hear, provider_step, turns,
}
use xlpod.Ai.Chat.Tasks.{
  Locals, Task, charging, acting, ended, next_turn, settle, with_answer, resume,
}
use xlpod.System.{Env, World, ProviderTurn, Outcome, M, done, failed, ◌>>=◌, ◌>>◌, pure, then_with}
use mathlib.Core.List.{append_assoc, append-nil}

-- The task runs from the first state to the second.
pub data Runs (env : Env) (last : World × Task) : World × Task → Type 0 where
  here : {s : World × Task} → s ≡ last → Runs env last s
  next : {w : World} {t : Task} → Runs env last (resume env t w) → Runs env last (w, t)

-- The end of a handler that has come to an outcome.
abbrev pub closed : {A : Type 0} → (A → ChatResponse) → Outcome A → World × Task
closed f (done a w) = (w, ended (ok (f a)))
closed f (failed e w) = (w, ended (err e))

-- What `ai_chat` answers with after its loop.
abbrev pub respond : Session → Final → ChatResponse
respond session fin = record {
  session_id = session.id;
  message = fin.message;
  stop_reason = fin.stop;
  usage = fin.usage;
}

module _ (env : Env) (last : World × Task) where
  -- The tools of a turn, one after another.
  Runs-run_tools :
      (v : Locals) (us : List ToolUse) (w : World) (results : List ContentBlock)
      → Runs env last (
          settle
            (λ more. acting v [] (results ++ more))
            (run_tools env v.session v.body.plan_only us w))
      → Runs env last (w, acting v us results)
  unfolding run_tools resume
  Runs-run_tools v [] w results r = rw append-nil at r
  Runs-run_tools v (u ∷ us) w results r = next (
      go (Runs-run_tools v us)
        (execute_tool_use env v.session v.body.plan_only u.id u.name u.input w) r)
    where
      push :
          (b : ContentBlock) (o : Outcome (List ContentBlock))
          → Runs env last
              (settle (λ more. acting v [] (results ++ more)) (then_with (λ l. pure (b ∷ l)) o))
          → Runs env last (settle (λ more. acting v [] ((results ++ b ∷ []) ++ more)) o)
      push b (done more x) r = rw append_assoc r
      push b (failed e x) r = r

      go :
          ((x : World) (results : List ContentBlock)
            → Runs env last (
                settle
                  (λ more. acting v [] (results ++ more))
                  (run_tools env v.session v.body.plan_only us x))
            → Runs env last (x, acting v us results))
          → (o : Outcome ContentBlock)
          → Runs env last (
              settle
                (λ more. acting v [] (results ++ more))
                (then_with
                  (λ b. run_tools env v.session v.body.plan_only us >>= λ l. pure (b ∷ l))
                  o))
          → Runs env last (settle (λ b. acting v us (results ++ b ∷ [])) o)
      go rest (done b x) r =
          rest x (results ++ b ∷ []) (push b (run_tools env v.session v.body.plan_only us x) r)
      go rest (failed e x) r = r

  -- A turn's tools, the message with their results, and the rest of the loop.
  Runs-round :
      (v : Locals) (us : List ToolUse) (k : List ContentBlock → M Final)
      → ((results : List ContentBlock) (x : World)
          → Runs env last (closed (respond v.session) (k results x))
          → Runs env last (
            x,
            next_turn v.session v.body v.left (v.history ++ message_of tool results ∷ []) v.fin,
          ))
      → (w : World)
      → Runs env last (
          closed (respond v.session) (
            (run_tools env v.session v.body.plan_only us >>= λ results.
            append v.session.id (message_of tool results ∷ []) >> k results)
              w))
      → Runs env last (w, acting v us [])
  unfolding resume
  Runs-round v us k rest w r =
      Runs-run_tools v us w [] (go (run_tools env v.session v.body.plan_only us w) r)
    where
      appended :
          (results : List ContentBlock) (o : Outcome (Unit {0}))
          → Runs env last (closed (respond v.session) (then_with (λ u. k results) o))
          → Runs env last (
              settle
                (λ u.
                  next_turn v.session v.body v.left
                    (v.history ++ message_of tool results ∷ [])
                    v.fin)
                o)
      appended results (done u x) r = rest results x r
      appended results (failed e x) r = r

      go :
          (o : Outcome (List ContentBlock))
          → Runs env last (
              closed (respond v.session) (
                then_with
                  (λ results. append v.session.id (message_of tool results ∷ []) >> k results)
                  o))
          → Runs env last (settle (λ more. acting v [] more) o)
      go (done results x) r =
          next (appended results (append v.session.id (message_of tool results ∷ []) x) r)
      go (failed e x) r = r

  module _ (session : Session) (body : ChatRequest) where
    pub Runs-turns :
        (left : ℕ) (history : List ChatMessage) (fin : Final) (w : World)
        → Runs env last (closed (respond session) (turns env session body left history fin w))
        → Runs env last (w, next_turn session body left history fin)
    unfolding turns provider_step charge resume
    Runs-turns zero history fin w r = r
    Runs-turns (suc left) history fin w r =
        next (go (Runs-turns left) (hear env session body history w) r)
      where
        v : Locals
        v = record { session = session; body = body; left = left; history = history; fin = fin }

        tail : ProviderTurn → M Final
        tail t =
            let rest = turns env session body left in
            if is_empty (tool_uses t.message.content)
            then pure (record { message = t.message; stop = t.stop_reason; usage = t.usage })
            else (do
              results ← run_tools env session body.plan_only (tool_uses t.message.content)
              append session.id (message_of tool results ∷ [])
              rest ((history ++ t.message ∷ []) ++ message_of tool results ∷ [])
                  (record { message = fin.message; stop = t.stop_reason; usage = t.usage }))

        go :
            ((history : List ChatMessage) (fin : Final) (x : World)
              → Runs env last (closed (respond session) (turns env session body left history fin x))
              → Runs env last (x, next_turn session body left history fin))
            → (o : Outcome ProviderTurn)
            → Runs env last (
                closed
                  (respond session)
                  (then_with tail (then_with (λ t. charge env session t.usage >> pure t) o)))
            → Runs env last (settle (charging v) o)
        go rest (failed e x) r = r
        go rest (done t x) r = elim (Bool-cases (is_empty (tool_uses t.message.content))) [
          | inl e ↦ next (rw e (rw e at r))
          | inr e ↦ next (
              rw e (
                Runs-round (with_answer v t) (tool_uses t.message.content) _
                  (λ results y q. rest _ _ y q) _ (rw e at r)))
        ]
