-- ===== src/Ai/Chat/Following.antt =====
-- The chat loop of launcher/xlpod-server/src/routes.rs in parts: a relation between the states of
-- the launcher that holds for each of its parts holds for the loop.
use xlpod.Common.{Bool, ℕ, zero, suc, List, [], ◌∷◌, String, is_empty}
use xlpod.Json.{Value}
use xlpod.Auth.{Result, ok, err}
use xlpod.Ai.Types.{Uuid, ChatMessage, ChatRequest, Usage}
use xlpod.Ai.Session.{Session, get_session}
use xlpod.Ai.Dispatch.{execute_tool_use}
use xlpod.Ai.Chat.{
  append, get, charge, provider_turn, ToolUse, tool_uses, run_tools, Final, hear, provider_step,
  turns, converse,
}
use xlpod.System.{
  Env, World, TurnResult, turn, turn_failed, unconfigured, upstream, decode, called_provider, emit,
  after, lift,
}
use xlpod.System.Order.{
  Order, Follows, same, Follows-bind, Follows-then, Follows-if, Follows-pure, Follows-throw,
  follows,
}

module _ {R : World → World → Type 0} ⦃o : Order R⦄ where
  pub Follows-get : (id : Uuid) → Follows R (get id)
  unfolding get
  Follows-get id = record { run = λ w. go w (get_session id w.sessions) }
    where
      go : (w : World) (r : Result Session) → R w (after (lift r w))
      go w (ok s) = same R w
      go w (err e) = same R w

  Follows-provider_turn : (r : TurnResult) → Follows R (provider_turn r)
  unfolding provider_turn
  Follows-provider_turn (turn t) = Follows-pure t
  Follows-provider_turn (turn_failed unconfigured) = Follows-throw _
  Follows-provider_turn (turn_failed (upstream s)) = Follows-throw _
  Follows-provider_turn (turn_failed (decode s)) = Follows-throw _

module _ {R : World → World → Type 0} ⦃o : Order R⦄ (env : Env) (session : Session)
    (plan_only : Bool)
    (acts : (id name : String) (input : Value)
      → Follows R (execute_tool_use env session plan_only id name input)) where
  pub Follows-run_tools : (us : List ToolUse) → Follows R (run_tools env session plan_only us)
  unfolding run_tools
  Follows-run_tools [] = Follows-pure []
  Follows-run_tools (u ∷ us) =
      Follows-bind (acts u.id u.name u.input)
        λ result. Follows-bind (Follows-run_tools us) λ results. Follows-pure (result ∷ results)

-- What a relation must allow a chat of the session: to call its provider, to append to its
-- transcript, to charge it, and to execute a tool for it.
pub record Allows (R : World → World → Type 0) (env : Env) (session : Session) (body : ChatRequest)
    : Type 0 where
  pub calls :
      (history : List ChatMessage) → Follows R (emit (called_provider session.provider history))
  pub appends : (new : List ChatMessage) → Follows R (append session.id new)
  pub charges : (usage : Usage) → Follows R (charge env session usage)
  pub acts :
      (id name : String) (input : Value)
      → Follows R (execute_tool_use env session body.plan_only id name input)

module _ {R : World → World → Type 0} ⦃o : Order R⦄ (env : Env) (session : Session)
    (body : ChatRequest) (a : Allows R env session body) where
  pub Follows-hear : (history : List ChatMessage) → Follows R (hear env session body history)
  unfolding hear
  Follows-hear history = search (follows, a.calls, a.appends, Follows-provider_turn) depth 14

  Follows-provider_step :
      (history : List ChatMessage) → Follows R (provider_step env session body history)
  unfolding provider_step
  Follows-provider_step history = search (follows, Follows-hear, a.charges) depth 14

  Follows-turns :
      (left : ℕ) (history : List ChatMessage) (fin : Final)
      → Follows R (turns env session body left history fin)
  unfolding turns
  Follows-turns zero history fin = Follows-pure fin
  Follows-turns (suc left) history fin = Follows-bind (Follows-provider_step history) λ t.
      Follows-if (is_empty (tool_uses t.message.content)) (Follows-pure _) (
        Follows-bind
          (Follows-run_tools env session body.plan_only a.acts (tool_uses t.message.content))
          λ results. Follows-then (a.appends _) (Follows-turns left _ _))

  pub Follows-converse : Follows R (converse env body session)
  unfolding converse
  Follows-converse = search (follows, a.appends, Follows-get, Follows-turns) depth 14
