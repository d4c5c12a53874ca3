-- ===== src/Ai/Chat/Rounds.antt =====
-- Which messages a chat of launcher/xlpod-server/src/routes.rs adds to the transcript of its session.
pub mod Loop
use xlpod.Ai.Chat.Rounds.Loop.{Rounds, reply_of, Added, turns-Added}
use xlpod.Common.{
  ℕ, zero, suc, ◌≡◌, refl, ap, ◌∙◌, ◌⊎◌, inl, inr, true, false, List, [], ◌∷◌, ◌++◌, Option, none,
  some, Bool-cases, contains, is_empty, if◌then◌else◌, nat_eq, text_eq,
}
use xlpod.Error.{ApiError, ai_budget_exceeded, ai_provider_unconfigured}
use xlpod.Auth.{ok}
use xlpod.Ai.Types.{ContentBlock, tool, ChatMessage, ChatRequest, ChatResponse}
use xlpod.Ai.Session.{Session, get_session}
use xlpod.Ai.Tools.{builtin_tools}
use xlpod.Ai.Cost.{over_budget}
use xlpod.Ai.Dispatch.Acts.{Stays-execute_tool_use}
use xlpod.Ai.Chat.{
  append, get, charge, provider_turn, ToolUse, tool_uses, run_tools, Final, no_final, max_turns,
  message_of, hear, provider_step, turns, converse, ai_chat,
}
use xlpod.Ai.Chat.Following.{Follows-run_tools}
use xlpod.Ai.Chat.Results.{AnswersAll, run_tools-Answered}
use xlpod.System.{
  Env, World, ProviderTurn, called_provider, unconfigured, upstream, decode, ◌>>◌, ◌>>=◌, pure,
  TurnResult, turn, turn_failed, Outcome, M, done, failed, then_with, after,
}
use xlpod.System.Order.{Follows}
use xlpod.Ai.Chat.Wrote.{
  Wrote, Wrote-same, Wrote-trans, Known, Known-Wrote, append-Known, Silent, Silent-Order,
}

-- The message that a chat answers with.
abbrev pub answer_of : Outcome ChatResponse → Option ChatMessage
answer_of (done r w) = some r.message
answer_of (failed e w) = none

-- A chat that was turned away, without a change.
pub record Declined (env : Env) (body : ChatRequest) (session : Session) (w : World)
    (o : Outcome ChatResponse) : Type 0 where
  pub error : ApiError
  pub ended : o ≡ failed error w
  pub cause :
      ((error ≡ ai_budget_exceeded) × (over_budget w.cost ≡ true))
      ⊎ ((error ≡ ai_provider_unconfigured) × (contains env.providers session.provider ≡ false))

-- A chat that took place: what it has added to the transcript, and its answer.
pub record Spoken (env : Env) (body : ChatRequest) (session : Session) (w : World)
    (o : Outcome ChatResponse) : Type 0 where
  pub under_budget : over_budget w.cost ≡ false
  pub listed : contains env.providers session.provider ≡ true
  pub new : List ChatMessage
  pub rounds :
      Rounds
        (reply_of env session body)
        no_final.message
        max_turns
        (session.messages ++ body.messages)
        new
        (answer_of o)
  pub wrote : Wrote session.id (body.messages ++ new) w (after o)

module _ (env : Env) (session : Session) (body : ChatRequest) (w : World) where
  respond : Final → M ChatResponse
  respond fin = pure (record {
    session_id = session.id;
    message = fin.message;
    stop_reason = fin.stop;
    usage = fin.usage;
  })

  finish :
      (v : World) (o : Outcome Final)
      → over_budget w.cost ≡ false
      → contains env.providers session.provider ≡ true
      → Wrote session.id body.messages w v
      → Added env session body no_final.message max_turns (session.messages ++ body.messages) v o
      → Spoken env body session w (then_with respond o)
  unfolding respond
  finish v (done f u) under listed wrote a = record {
    under_budget = under;
    listed = listed;
    new = a.new;
    rounds = a.rounds;
    wrote = Wrote-trans wrote a.wrote;
  }
  finish v (failed e u) under listed wrote a = record {
    under_budget = under;
    listed = listed;
    new = a.new;
    rounds = a.rounds;
    wrote = Wrote-trans wrote a.wrote;
  }

  converse-Spoken :
      over_budget w.cost ≡ false
      → contains env.providers session.provider ≡ true
      → get_session session.id w.sessions ≡ ok session
      → Spoken env body session w (converse env body session w)
  unfolding converse get respond
  converse-Spoken under listed stored =
      let (v, e, wrote) = append-Known session.id body.messages w (session, stored) in
      let found = wrote.own session stored in
      let a =
        turns-Added env session body max_turns (session.messages ++ body.messages) no_final v
          (_, found) in
      rw (e, found) (finish v _ under listed wrote a)

-- A chat of a stored session is turned away without a change, if the budget is spent or the
-- provider is not registered; or exactly these messages are added at the end of the session's
-- transcript, and no other session changes: the request's messages, then at most eight rounds of
-- the provider's answer to the transcript so far and, where it calls tools, a message with one
-- result for each call in their order. The rounds end only with an answer without calls, which is
-- what the chat answers, with a failure of the provider, which makes the chat fail, or with the
-- eighth answer, and then the chat answers with an empty message.
pub ai_chat-Spoken :
    (env : Env) (session : Session) (body : ChatRequest) (w : World)
    → get_session body.session_id w.sessions ≡ ok session
    → session.id ≡ body.session_id
    → Declined env body session w (ai_chat env body w)
      ⊎ Spoken env body session w (ai_chat env body w)
unfolding ai_chat get
ai_chat-Spoken env session body w found own = elim (Bool-cases (over_budget w.cost)) [
  | inl over ↦
      rw (over, ai_chat)
        (inl (record { error = ai_budget_exceeded; ended = refl; cause = inl (refl, over) }))
  | inr under ↦ elim (Bool-cases (contains env.providers session.provider)) [
    | inl listed ↦
        rw (under, found, listed, get, ai_chat)
          (inr (
            converse-Spoken env session body w under listed
              (ap (λ i. get_session i w.sessions) own ∙ found)))
    | inr missing ↦
        rw (under, found, missing, get, ai_chat)
          (inl (record {
            error = ai_provider_unconfigured;
            ended = refl;
            cause = inr (refl, missing);
          }))
  ]
]
