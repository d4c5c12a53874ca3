-- ===== src/Ai/Chat.antt =====
-- launcher/xlpod-server/src/routes.rs, `ai_chat`: the conversation loop between the AI provider
-- and the tools.
pub mod Calls
pub mod Turns
pub mod Results
pub mod Wrote
pub mod Rounds
pub mod Tasks
pub mod Following
pub mod Growth
pub mod Stores
use xlpod.Common.{
  ℕ, zero, suc, Bool, true, false, not, String, List, [], ◌∷◌, ◌++◌, Option, none, some, contains,
  is_empty, if◌then◌else◌, text_eq, ◌==◌,
}
use xlpod.Error.{ApiError, ai_budget_exceeded, ai_provider_unconfigured, ai_provider_upstream}
use xlpod.Json.{Value}
use xlpod.Auth.{Result, ok, err}
use xlpod.Ai.Types.{
  Uuid, ContentBlock, text, tool_use, tool_result, Role, assistant, tool, ChatMessage, StopReason,
  end_turn, Usage, no_usage, ChatRequest, ChatResponse, ToolSpec,
}
use xlpod.Ai.Tools.{builtin_tools}
use xlpod.Ai.Session.{Session, get_session, append_messages}
use xlpod.Ai.Cost.{over_budget, record_cost}
use xlpod.Ai.Dispatch.{execute_tool_use}
use xlpod.System.{
  Env, World, ProviderError, unconfigured, upstream, decode, ProviderTurn, TurnResult, turn,
  turn_failed, called_provider, Outcome, M, ◌>>=◌, ◌>>◌, pure, throw, guard, lift, draw, emit,
  reads, then_with, done, failed,
}

-- `state.ai.sessions.append_messages(id, new)?`.
unfoldable pub append : Uuid → List ChatMessage → M (Unit {0})
append id new w =
    let (r, store) = append_messages id new w.sessions in lift r (record w { sessions = store })

-- `state.ai.sessions.get(id)?`.
unfoldable pub get : Uuid → M Session
get id w = lift (get_session id w.sessions) w

-- `state.ai.cost.record(…)`, whose result is ignored.
unfoldable pub charge : Env → Session → Usage → M (Unit {0})
charge env session usage = do
  now ← draw env.unix_ms
  λ w. done tt (record w { cost = (record_cost now session.provider session.model usage w.cost).1 })

-- The provider's answer, with its errors mapped.
unfoldable pub provider_turn : TurnResult → M ProviderTurn
provider_turn (turn t) = pure t
provider_turn (turn_failed unconfigured) = throw ai_provider_unconfigured
provider_turn (turn_failed (upstream s)) = throw ai_provider_upstream
provider_turn (turn_failed (decode s)) = throw ai_provider_upstream

pub record ToolUse : Type 0 where
  pub id : String
  pub name : String
  pub input : Value

-- The `tool_use` blocks of a message.
unfoldable pub tool_uses : List ContentBlock → List ToolUse
tool_uses [] = []
tool_uses (tool_use i n v ∷ bs) = record { id = i; name = n; input = v } ∷ tool_uses bs
tool_uses (text s ∷ bs) = tool_uses bs
tool_uses (tool_result i o v a ∷ bs) = tool_uses bs

-- The loop over the tool calls of one turn.
unfoldable pub run_tools : Env → Session → Bool → List ToolUse → M (List ContentBlock)
run_tools env session plan_only [] = pure []
run_tools env session plan_only (u ∷ us) =
    let rest = run_tools env session plan_only us in
    (do
      result ← execute_tool_use env session plan_only u.id u.name u.input
      results ← rest
      pure (result ∷ results))

-- `final_message`, `final_stop` and `final_usage`.
pub record Final : Type 0 where
  pub message : ChatMessage
  pub stop : StopReason
  pub usage : Usage

abbrev pub message_of : Role → List ContentBlock → ChatMessage
message_of role content = record { role = role; ts_ms = none; content = content }

abbrev pub no_final : Final
no_final = record { message = message_of assistant []; stop = end_turn; usage = no_usage }

-- `MAX_TURNS`.
abbrev pub max_turns : ℕ
max_turns = 8

-- The call of the provider in a turn, with the appended answer.
unfoldable pub hear : Env → Session → ChatRequest → List ChatMessage → M ProviderTurn
hear env session body history = do
  emit (called_provider session.provider history)
  answer ← draw (λ n. env.chat n session.provider history (builtin_tools env.json) body.max_tokens)
  t ← provider_turn answer
  append session.id (t.message ∷ [])
  pure t

-- A turn up to the recorded cost.
unfoldable pub provider_step : Env → Session → ChatRequest → List ChatMessage → M ProviderTurn
provider_step env session body history = do
  t ← hear env session body history
  charge env session t.usage
  pure t

-- The loop of `ai_chat`, with the number of turns that are left.
unfoldable pub turns : Env → Session → ChatRequest → ℕ → List ChatMessage → Final → M Final
turns env session body zero history fin = pure fin
turns env session body (suc left) history fin =
    let next = turns env session body left in
    (do
      t ← provider_step env session body history
      if is_empty (tool_uses t.message.content)
          then pure (record { message = t.message; stop = t.stop_reason; usage = t.usage })
          else (do
            results ← run_tools env session body.plan_only (tool_uses t.message.content)
            append session.id (message_of tool results ∷ [])
            next ((history ++ t.message ∷ []) ++ message_of tool results ∷ [])
                (record { message = fin.message; stop = t.stop_reason; usage = t.usage })))

-- `ai_chat` from the request's messages on.
unfoldable pub converse : Env → ChatRequest → Session → M ChatResponse
converse env body session = do
  append session.id body.messages
  current ← get session.id
  fin ← turns env session body max_turns current.messages no_final
  pure (record {
    session_id = session.id;
    message = fin.message;
    stop_reason = fin.stop;
    usage = fin.usage;
  })

-- `ai_chat`.
unfoldable pub ai_chat : Env → ChatRequest → M ChatResponse
ai_chat env body = do
  over ← reads (λ w. over_budget w.cost)
  guard (not over) ai_budget_exceeded
  session ← get body.session_id
  guard (contains env.providers session.provider) ai_provider_unconfigured
  converse env body session
