-- ===== src/Ai/Chat/Tasks.antt =====
-- launcher/xlpod-server/src/routes.rs, `ai_chat` as a task of the executor: the places where it
-- waits, and what it does from one of them to the next. Between two places other tasks run.
pub mod Loop
pub mod Alone
pub mod Pool
pub mod Histories
pub mod Kept
pub mod Bound
use xlpod.Common.{
  ℕ, zero, suc, Bool, true, false, not, List, [], ◌∷◌, ◌++◌, contains, is_empty, if◌then◌else◌,
  text_eq,
}
use xlpod.Error.{ApiError, ai_budget_exceeded, ai_provider_unconfigured}
use xlpod.Auth.{Result, ok, err}
use xlpod.Ai.Types.{ContentBlock, tool, ChatMessage, ChatRequest, ChatResponse}
use xlpod.Ai.Session.{Session}
use xlpod.Ai.Cost.{over_budget}
use xlpod.Ai.Dispatch.{execute_tool_use}
use xlpod.Ai.Chat.{
  append, get, charge, ToolUse, tool_uses, Final, no_final, max_turns, message_of, hear,
}
use xlpod.System.{
  Env, World, ProviderTurn, Outcome, M, done, failed, ◌>>=◌, ◌>>◌, pure, guard, reads, then_with,
}

-- The local variables of the loop: the turns that are left after this one, `history`, and the
-- `final_` variables.
pub record Locals : Type 0 where
  pub session : Session
  pub body : ChatRequest
  pub left : ℕ
  pub history : List ChatMessage
  pub fin : Final

-- Where a chat waits: for the provider, for the ledger's file after an answer, or for a tool, with
-- the calls that are left and the results so far; or it has ended.
pub data Task : Type 0 where
  asking : Locals → Task
  charging : Locals → ProviderTurn → Task
  acting : Locals → List ToolUse → List ContentBlock → Task
  ended : Result ChatResponse → Task

abbrev pub response : Locals → Final → ChatResponse
response v fin = record {
  session_id = v.session.id;
  message = fin.message;
  stop_reason = fin.stop;
  usage = fin.usage;
}

-- The head of the loop, with the turns that are left.
abbrev pub next_turn : Session → ChatRequest → ℕ → List ChatMessage → Final → Task
next_turn session body zero history fin = ended (
    ok (record {
      session_id = session.id;
      message = fin.message;
      stop_reason = fin.stop;
      usage = fin.usage;
    }))
next_turn session body (suc left) history fin =
    asking (record { session = session; body = body; left = left; history = history; fin = fin })

-- A stretch ends at the next place, or the handler returns with an error.
abbrev pub settle : {A : Type 0} → (A → Task) → Outcome A → World × Task
settle f (done a w) = (w, f a)
settle f (failed e w) = (w, ended (err e))

-- `history.push(assistant_message)`, and the assignments at the end of a turn.
abbrev pub with_answer : Locals → ProviderTurn → Locals
with_answer v t = record v {
  history = v.history ++ t.message ∷ [];
  fin = record { message = v.fin.message; stop = t.stop_reason; usage = t.usage };
}

-- From the ledger's file on: the answer is the last one, or its tools are to be run.
abbrev pub after_charge : Locals → ProviderTurn → Task
after_charge v t =
    if is_empty (tool_uses t.message.content)
    then ended
        (ok (response v (record { message = t.message; stop = t.stop_reason; usage = t.usage })))
    else acting (with_answer v t) (tool_uses t.message.content) []

-- The stretch from a place where the chat waits to the next one.
unfoldable pub resume : Env → Task → World → World × Task
resume env (asking v) w = settle (charging v) (hear env v.session v.body v.history w)
resume env (charging v t) w = settle (λ u. after_charge v t) (charge env v.session t.usage w)
resume env (acting v (u ∷ uses) results) w =
    settle (λ r. acting v uses (results ++ r ∷ []))
      (execute_tool_use env v.session v.body.plan_only u.id u.name u.input w)
resume env (acting v [] results) w =
    settle
      (λ u. next_turn v.session v.body v.left (v.history ++ message_of tool results ∷ []) v.fin)
      (append v.session.id (message_of tool results ∷ []) w)
resume env (ended r) w = (w, ended r)

-- What `ai_chat` does before its loop.
unfoldable pub entry : Env → ChatRequest → M Task
entry env body = do
  over ← reads (λ w. over_budget w.cost)
  guard (not over) ai_budget_exceeded
  session ← get body.session_id
  guard (contains env.providers session.provider) ai_provider_unconfigured
  append session.id body.messages
  current ← get session.id
  pure (next_turn session body max_turns current.messages no_final)

-- The stretch from the start of a request to its first wait.
unfoldable pub begin_chat : Env → ChatRequest → World → World × Task
begin_chat env body w = settle (λ t. t) (entry env body w)
