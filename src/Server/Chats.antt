-- ===== src/Server/Chats.antt =====
-- The chat loop of launcher/xlpod-server/src/routes.rs: the stored tokens, and what it gives sessions.
use xlpod.Common.{refl, Bool, String, List, [], text_eq}
use xlpod.Json.{Value}
use xlpod.Ai.Types.{Uuid, ChatMessage, ChatRequest, Usage}
use xlpod.Ai.Session.{Session, append_messages}
use xlpod.Ai.Dispatch.{execute_tool_use}
use xlpod.Ai.Dispatch.Acts.{Stays-execute_tool_use}
use xlpod.Ai.Chat.{append, charge, converse, ai_chat}
use xlpod.Ai.Chat.Following.{Follows-get, Follows-converse}
use xlpod.Ai.Chat.Growth.{Longer-append}
use xlpod.System.{Env}
use xlpod.System.Order.{Follows, Follows-emit, follows}
use xlpod.Server.Steps.{
  Advances, Kept-append_messages, Advances-Order, Advances-Blind, Follows-Stays, Follows-quiet,
  Follows-lift_at,
}

module _ (env : Env) (session : Session) where
  Follows-execute_tool_use :
      (plan_only : Bool) (id name : String) (input : Value)
      → Follows Advances (execute_tool_use env session plan_only id name input)
  Follows-execute_tool_use plan_only id name input =
      Follows-Stays (Stays-execute_tool_use env session plan_only id name input)

  Follows-charge : (usage : Usage) → Follows Advances (charge env session usage)
  unfolding charge
  Follows-charge usage = Follows-quiet _ (λ w. (refl, refl, refl, refl))

Follows-append : (id : Uuid) (new : List ChatMessage) → Follows Advances (append id new)
unfolding append
Follows-append id new =
    Follows-lift_at (λ w. (append_messages id new w.sessions).0)
      (λ w. record w { sessions = (append_messages id new w.sessions).1 })
      (λ w. record {
        events = [];
        trace = refl;
        tokens = refl;
        sessions = Kept-append_messages id new w.sessions;
        transcripts = Longer-append id new w.sessions;
        audit = refl;
      })

pub Follows-ai_chat : (env : Env) (body : ChatRequest) → Follows Advances (ai_chat env body)
unfolding ai_chat
Follows-ai_chat env body = search (follows, Follows-get, followed) depth 14
  where
    followed : (session : Session) → Follows Advances (converse env body session)
    followed session = Follows-converse env session body (record {
      calls = λ history. Follows-emit _;
      appends = Follows-append session.id;
      charges = Follows-charge env session;
      acts = Follows-execute_tool_use env session body.plan_only;
    })
