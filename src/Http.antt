-- ===== src/Http.antt =====
-- Requests and responses as launcher/xlpod-server/src/middleware.rs and routes.rs see them. The
-- framework (axum) has parsed the request; a header value is a text where `HeaderValue::to_str`
-- gives one.
use xlpod.Common.{ℕ, Bool, String, List, Option, none, some}
use xlpod.Error.{ApiError, ErrorBody, status, body}
use xlpod.Json.{Value}
use xlpod.Auth.{Scope, TokenRecord}
use xlpod.Ai.Types.{ChatMessage, ChatResponse, ToolSpec}
use xlpod.Ai.TrustWindow.{TrustWindow}
use xlpod.Ai.Cost.{CostRollup}
use xlpod.System.{World, ExecResult, Outcome, done, failed, M}

pub data HeaderValue : Type 0 where
  visible : String → HeaderValue
  opaque : HeaderValue

-- The last two fields are the request's extensions `TokenIdExt` and `TokenRecordExt`.
pub record Request : Type 0 where
  pub method : String
  pub path : String
  pub host : Option HeaderValue
  pub origin : Option HeaderValue
  pub authorization : Option HeaderValue
  pub token_id : Option String
  pub token_record : Option TokenRecord

-- The bodies of the responses, one constructor for each response type of routes.rs; a rejection is
-- the framework's.
pub data Body : Type 0 where
  health_body : (status launcher : String) (proto : ℕ) → Body
  handshake_body :
      (token : String) (granted_scopes : List Scope) (granted_fs_roots : List String)
      (expires_in : ℕ)
      → Body
  version_body : (launcher : String) (proto : ℕ) → Body
  file_body : (path : String) (size : ℕ) (encoding content : String) → Body
  exec_body : ExecResult → Body
  json_body : Value → Body
  session_body :
      (session_id provider model : String) (granted_scopes : List Scope) (opened_ms : ℕ) → Body
  chat_body : ChatResponse → Body
  providers_body : List (String × Bool) → Body
  tools_body : List ToolSpec → Body
  history_body : (session_id : String) (messages : List ChatMessage) → Body
  cost_body : CostRollup → Body
  window_body : TrustWindow → Body
  switching : Body
  error_response_body : ErrorBody → Body
  rejection : Body

-- `token_id` is the response's extension `TokenIdExt`.
pub record Response : Type 0 where
  pub status : ℕ
  pub body : Body
  pub token_id : Option String

-- `IntoResponse for ApiError`.
unfoldable pub error_response : ApiError → Response
error_response e = record {
  status = status e;
  body = error_response_body (body e);
  token_id = none;
}

-- `Json(…)` as a response.
abbrev pub respond : Body → Response
respond b = record { status = 200; body = b; token_id = none }

-- `Next`: what runs behind a layer.
abbrev pub Next : Type 0
Next = Request → World → Response × World

-- `next.run(request).await`.
abbrev pub run_next : Next → Request → M Response
run_next next req w = done (next req w).0 (next req w).1

-- The framework's conversion of a handler's or a layer's result.
abbrev pub into_response : Outcome Response → Response × World
into_response (done r w) = (r, w)
into_response (failed e w) = (error_response e, w)

-- `header_str`.
abbrev pub header_str : Option HeaderValue → Option String
header_str (some (visible s)) = some s
header_str (some opaque) = none
header_str none = none
