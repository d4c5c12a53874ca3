-- ===== src/Ai/Anthropic.antt =====
-- launcher/xlpod-server/src/ai/anthropic.rs: the provider behind the chat loop. HTTP and serde are the
-- fields of `Upstream`; the wire types are records and data with the source's names.
pub mod Wire
pub mod Log
pub mod Call
use Prim.Native.String
use Prim.Native.String.{[] as empty, ◌∷◌ as chr}
use Prim.Native.Char.{Char, code}
use xlpod.Common.{
  ℕ, zero, suc, ◌+◌, ◌-◌, ltb, leb, ◌&&◌, Bool, true, false, String, List, [], ◌∷◌, ◌++◌, Option,
  none, some, map, length, if◌then◌else◌, ◌==◌, text_eq,
}
use xlpod.Common.Unicode.{utf8, as_bytes}
use xlpod.Json.{Value}
use xlpod.Ai.Types.{
  ContentBlock, text, tool_use, tool_result, Role, system, user, assistant, tool, ChatMessage,
  StopReason, end_turn, max_tokens, Usage, no_usage, ToolSpec,
}
use xlpod.System.{
  ProviderError, unconfigured, upstream, decode, ProviderTurn, TurnResult, turn, turn_failed,
}

abbrev pub anthropic_api_version : String
anthropic_api_version = "2023-06-01"

abbrev pub anthropic_messages_url : String
anthropic_messages_url = "https://api.anthropic.com/v1/messages"

-- `enum WireContent`.
pub data WireContent : Type 0 where
  wire_text : String → WireContent
  wire_tool_use : (id name : String) (input : Value) → WireContent
  wire_tool_result : (tool_use_id content : String) → WireContent

-- `struct WireMessage`.
pub record WireMessage : Type 0 where
  pub role : String
  pub content : List WireContent

-- `struct WireTool`.
pub record WireTool : Type 0 where
  pub name : String
  pub description : String
  pub input_schema : Value

-- `struct WireRequest`; an empty list of tools is left out by serde.
pub record WireRequest : Type 0 where
  pub model : String
  pub max_tokens : ℕ
  pub messages : List WireMessage
  pub tools : List WireTool

-- `WireContent::from_internal`, with `Value::to_string`.
unfoldable pub wire_content : (Value → String) → ContentBlock → WireContent
wire_content to_string (text t) = wire_text t
wire_content to_string (tool_use id name input) = wire_tool_use id name input
wire_content to_string (tool_result tool_use_id ok output approved_via) =
    wire_tool_result tool_use_id (to_string output)

-- The roles of the wire.
unfoldable pub wire_role : Role → String
wire_role system = "user"
wire_role user = "user"
wire_role tool = "user"
wire_role assistant = "assistant"

-- `WireMessage::from_internal`.
unfoldable pub wire_message : (Value → String) → ChatMessage → WireMessage
wire_message to_string msg = record {
  role = wire_role msg.role;
  content = map (wire_content to_string) msg.content;
}

-- `WireTool::from_internal`.
unfoldable pub wire_tool : ToolSpec → WireTool
wire_tool t = record { name = t.name; description = t.description; input_schema = t.input_schema }

abbrev pub or_1024 : Option ℕ → ℕ
or_1024 none = 1024
or_1024 (some n) = n

-- `WireRequest::from_internal`.
unfoldable pub wire_request :
    (Value → String) → List ChatMessage → List ToolSpec → String → Option ℕ → WireRequest
wire_request to_string messages tools model limit = record {
  model = model;
  max_tokens = or_1024 limit;
  messages = map (wire_message to_string) messages;
  tools = map wire_tool tools;
}

-- `enum WireRespBlock`, `struct WireUsage` and `struct WireResponse`.
pub data WireRespBlock : Type 0 where
  resp_text : String → WireRespBlock
  resp_tool_use : (id name : String) (input : Value) → WireRespBlock

pub record WireUsage : Type 0 where
  pub input_tokens : ℕ
  pub output_tokens : ℕ

pub record WireResponse : Type 0 where
  pub content : List WireRespBlock
  pub stop_reason : Option String
  pub usage : Option WireUsage

-- The blocks of an answer.
unfoldable pub block_of : WireRespBlock → ContentBlock
block_of (resp_text t) = text t
block_of (resp_tool_use id name input) = tool_use id name input

unfoldable pub stop_of : Option String → StopReason
stop_of none = end_turn
stop_of (some s) = if s == "max_tokens" then max_tokens else end_turn

unfoldable pub usage_of : Option WireUsage → Usage
usage_of none = no_usage
usage_of (some u) = record {
  input_tokens = u.input_tokens;
  output_tokens = u.output_tokens;
  cached_input_tokens = none;
}

-- `WireResponse::into_internal`.
unfoldable pub into_internal : WireResponse → ProviderTurn
into_internal r = record {
  message = record { role = assistant; ts_ms = none; content = map block_of r.content };
  stop_reason = stop_of r.stop_reason;
  usage = usage_of r.usage;
}

-- `s.len()`.
abbrev pub len : String → ℕ
len s = length (as_bytes s)

abbrev pub in_front : Char → Option String → Option String
in_front c none = none
in_front c (some t) = some (chr c t)

-- `&s[..n]`; `none` is the panic where byte `n` is inside a character or behind the text.
unfoldable pub byte_prefix : (n : ℕ) → String → Option String
byte_prefix zero s = some ""
byte_prefix (suc n) empty = none
byte_prefix (suc n) (chr c s) =
    let rest = byte_prefix (suc n - length (utf8 (code c))) s in
    if leb (length (utf8 (code c))) (suc n) then in_front c rest else none

-- `truncate_for_log`.
unfoldable pub truncate_for_log : String → Option String
truncate_for_log s =
    if ltb 400 (len s)
    then elim (byte_prefix 400 s) [ none ↦ none | some t ↦ some (String.◌++◌ t "…") ]
    else some s

-- What comes back from the HTTP client. The texts are those of its errors and of the status line;
-- `body` is `resp.text()`, and `parsed` is `resp.json()`.
pub data Parsed : Type 0 where
  decoded : WireResponse → Parsed
  undecodable : String → Parsed

pub data HttpAnswer : Type 0 where
  send_failed : String → HttpAnswer
  answered :
      (status : ℕ) (status_text : String) (body : Option String) (parsed : Parsed) → HttpAnswer

-- A request to the service: the URL, two headers and the body.
pub record HttpRequest : Type 0 where
  pub url : String
  pub api_key : String
  pub version : String
  pub body : WireRequest

-- The provider's own state and what it calls: `Keychain::read`, with `none` for its error, and the
-- HTTP client.
pub record Upstream : Type 0 where
  pub read_key : String → Option (Option String)
  pub post : HttpRequest → HttpAnswer
  pub to_string : Value → String
  pub model : String
  pub api_url : String

-- How a call of the provider ends.
pub data ChatEnd : Type 0 where
  returned : TurnResult → ChatEnd
  panicked : ChatEnd

-- `StatusCode::is_success`.
abbrev pub is_success : ℕ → Bool
is_success status = leb 200 status && ltb status 300

abbrev or_nothing : Option String → String
or_nothing none = ""
or_nothing (some s) = s

-- `format!("{status}: {}", …)` around the truncated text.
abbrev upstream_error : String → Option String → ChatEnd
upstream_error status_text none = panicked
upstream_error status_text (some t) =
    returned (turn_failed (upstream (String.◌++◌ status_text (String.◌++◌ ": " t))))

abbrev of_parsed : Parsed → ChatEnd
of_parsed (decoded r) = returned (turn (into_internal r))
of_parsed (undecodable e) = returned (turn_failed (decode e))

-- What `chat` makes of the answer.
unfoldable pub of_answer : HttpAnswer → ChatEnd
of_answer (send_failed e) = returned (turn_failed (upstream e))
of_answer (answered status status_text body parsed) =
    if is_success status
    then of_parsed parsed
    else upstream_error status_text (truncate_for_log (or_nothing body))

-- The request of `chat` for a key.
unfoldable pub request_of :
    Upstream → String → List ChatMessage → List ToolSpec → Option ℕ → HttpRequest
request_of up key messages tools limit = record {
  url = up.api_url;
  api_key = key;
  version = anthropic_api_version;
  body = wire_request up.to_string messages tools up.model limit;
}

-- `chat`: the requests that it sends, and its end.
unfoldable pub provider_chat :
    Upstream → List ChatMessage → List ToolSpec → Option ℕ → List HttpRequest × ChatEnd
provider_chat up messages tools limit = elim (up.read_key "anthropic_api_key") [
  | none ↦ ([], returned (turn_failed unconfigured))
  | some none ↦ ([], returned (turn_failed unconfigured))
  | some (some key) ↦
      let req = request_of up key messages tools limit in (req ∷ [], of_answer (up.post req))
]
