-- ===== src/Ai/Types.antt =====
-- launcher/xlpod-server/src/ai/types.rs: the messages of a conversation, and tool descriptions.
-- A `Uuid` is a number, a time in milliseconds is a number.
use xlpod.Common.{ℕ, Bool, String, List, Option, none}
use xlpod.Json.{Value}
use xlpod.Auth.{Scope}

abbrev pub Uuid : Type 0
Uuid = ℕ

-- `enum ApprovedVia`.
pub data ApprovedVia : Type 0 where
  auto dialog trust_window : ApprovedVia

-- `enum ContentBlock`.
pub data ContentBlock : Type 0 where
  text : String → ContentBlock
  tool_use : (id name : String) (input : Value) → ContentBlock
  tool_result :
      (tool_use_id : String) (ok : Bool) (output : Value) (approved_via : Option ApprovedVia)
      → ContentBlock

-- `enum Role`.
pub data Role : Type 0 where
  system user assistant tool : Role

-- `struct ChatMessage`.
pub record ChatMessage : Type 0 where
  pub role : Role
  pub ts_ms : Option ℕ
  pub content : List ContentBlock

-- `enum StopReason`.
pub data StopReason : Type 0 where
  end_turn max_tokens tool_use_round_limit : StopReason

-- `struct Usage`.
pub record Usage : Type 0 where
  pub input_tokens : ℕ
  pub output_tokens : ℕ
  pub cached_input_tokens : Option ℕ

-- `Usage::default()`.
abbrev pub no_usage : Usage
no_usage = record { input_tokens = 0; output_tokens = 0; cached_input_tokens = none }

-- `struct ToolSpec`.
pub record ToolSpec : Type 0 where
  pub name : String
  pub description : String
  pub input_schema : Value
  pub xlpod_route : String
  pub required_scope : Scope
  pub mutates : Bool

-- `struct ChatRequest`.
pub record ChatRequest : Type 0 where
  pub session_id : Uuid
  pub messages : List ChatMessage
  pub max_tokens : Option ℕ
  pub plan_only : Bool

-- `struct ChatResponse`.
pub record ChatResponse : Type 0 where
  pub session_id : Uuid
  pub message : ChatMessage
  pub stop_reason : StopReason
  pub usage : Usage
