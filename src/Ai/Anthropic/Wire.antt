-- ===== src/Ai/Anthropic/Wire.antt =====
-- The wire format of launcher/xlpod-server/src/ai/anthropic.rs through a turn of the chat loop.
use xlpod.Common.{
  ℕ, ◌++◌, ◌≡◌, refl, ap, Bool, String, List, [], ◌∷◌, Option, none, some, map, text_eq,
}
use xlpod.Json.{Value}
use xlpod.Ai.Types.{ContentBlock, tool, ChatMessage, ToolSpec}
use xlpod.Ai.Session.{Session}
use xlpod.Ai.Chat.{tool_uses, run_tools, message_of}
use xlpod.System.{Env, World, done}
use xlpod.Ai.Anthropic.{
  WireContent, wire_text, wire_tool_use, wire_tool_result, wire_content, wire_request,
  WireRespBlock, resp_text, resp_tool_use, WireResponse, block_of, into_internal,
}

-- A block of an answer in the form in which a request repeats it.
abbrev pub repeat : WireRespBlock → WireContent
repeat (resp_text t) = wire_text t
repeat (resp_tool_use id name input) = wire_tool_use id name input

-- The ids of the tool calls in an answer.
abbrev pub call_ids : List WireRespBlock → List String
call_ids [] = []
call_ids (resp_text t ∷ bs) = call_ids bs
call_ids (resp_tool_use id name input ∷ bs) = id ∷ call_ids bs

-- The ids that a message answers, `none` for a block that is no result.
abbrev pub result_ids : List WireContent → List (Option String)
result_ids [] = []
result_ids (wire_tool_result id content ∷ cs) = some id ∷ result_ids cs
result_ids (wire_text t ∷ cs) = none ∷ result_ids cs
result_ids (wire_tool_use id name input ∷ cs) = none ∷ result_ids cs

calls_of :
    (bs : List WireRespBlock)
    → map (λ u. some u.id) (tool_uses (map block_of bs)) ≡ map some (call_ids bs)
unfolding tool_uses block_of
calls_of [] = refl
calls_of (resp_text t ∷ bs) = calls_of bs
calls_of (resp_tool_use id name input ∷ bs) = ap (λ l. some id ∷ l) (calls_of bs)

-- What the request after a turn says: `asked` is the one of that turn.
pub record Continued (env : Env) (session : Session) (plan_only : Bool) (to_string : Value → String)
    (history : List ChatMessage) (tools : List ToolSpec) (model : String) (limit : Option ℕ)
    (r : WireResponse) (w : World) : Type 0 where
  pub results : List ContentBlock
  pub last : World
  pub ran :
      run_tools env session plan_only (tool_uses (into_internal r).message.content) w
      ≡ done results last
  pub answered : List WireContent
  pub messages :
      (wire_request to_string
        ((history ++ (into_internal r).message ∷ []) ++ message_of tool results ∷ [])
        tools
        model
        limit).messages
      ≡ (wire_request to_string history tools model limit).messages
        ++ record { role = "assistant"; content = map repeat r.content }
          ∷ record { role = "user"; content = answered }
          ∷ []
  pub contents : answered ≡ map (wire_content to_string) results
  pub ids : result_ids answered ≡ map some (call_ids r.content)
