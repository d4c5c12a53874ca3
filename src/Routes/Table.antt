-- ===== src/Routes/Table.antt =====
-- launcher/xlpod-server/src/routes.rs, `router`: which guards stand before which handler. The
-- framework chooses the endpoint by method and path, and parses the input.
pub mod Mediation
pub mod Served
use xlpod.Common.{ℕ, String, List, [], ◌∷◌, Option, none, some}
use xlpod.Error.{ApiError, unauthorized}
use xlpod.Json.{Value}
use xlpod.Auth.{Scope, TokenRecord}
use xlpod.Ai.Types.{ChatRequest}
use xlpod.Routes.Files.{
  fs_read_route, run_python_route, excel_workbooks_route, excel_range_read_route, bundle_read_route,
  bundle_write_route,
}
use xlpod.Routes.Assistant
use xlpod.System.{Env, World, Outcome, M, ◌>>=◌, ◌>>◌, pure, or_throw, then_with, done, failed}
use xlpod.Http.{Request, Response, Body, switching, rejection, respond, Next, into_response}
use xlpod.Middleware.{host_guard, origin_guard, bearer_guard, require_scope, audit_wrap}
use xlpod.Routes.Handshake.{HandshakeRequest}
use xlpod.Routes.Handshake

-- The endpoints of the table.
pub data Endpoint : Type 0 where
  health handshake launcher_version ws fs_read run_python excel_workbooks : Endpoint
  excel_range_read bundle_read bundle_write ai_chat ai_open_session ai_session_history : Endpoint
  ai_list_providers ai_set_provider_key ai_delete_provider_key ai_list_tools : Endpoint
  ai_cost_today ai_open_trust_window : Endpoint

-- A `route_layer`.
pub data Layer : Type 0 where
  host origin bearer : Layer
  scope : Scope → Layer

abbrev scoped : Scope → List Layer
scoped s = host ∷ origin ∷ bearer ∷ scope s ∷ []

-- The layers of an endpoint, the outermost first.
unfoldable pub layers : Endpoint → List Layer
layers Endpoint.health = []
layers Endpoint.handshake = host ∷ origin ∷ []
layers Endpoint.launcher_version = host ∷ origin ∷ bearer ∷ []
layers Endpoint.ws = host ∷ origin ∷ bearer ∷ []
layers Endpoint.fs_read = scoped Scope.fs_read
layers Endpoint.run_python = scoped Scope.run_python
layers Endpoint.excel_workbooks = scoped Scope.excel_com
layers Endpoint.excel_range_read = scoped Scope.excel_com
layers Endpoint.bundle_read = scoped Scope.bundle_read
layers Endpoint.bundle_write = scoped Scope.bundle_write
layers _ = scoped Scope.ai_provider_call

-- The parsed input of an endpoint; `malformed` is an input that the framework rejects, and the
-- status that it answers with.
pub data Call : Type 0 where
  health launcher_version ws excel_workbooks : Call
  handshake : HandshakeRequest → Call
  fs_read run_python bundle_read : String → Call
  excel_range_read : (workbook sheet range : String) → Call
  bundle_write : (path : String) (payload : Value) → Call
  ai_chat : ChatRequest → Call
  ai_open_session : (provider model : Option String) → Call
  ai_session_history ai_delete_provider_key : String → Call
  ai_set_provider_key : (provider key : String) → Call
  ai_list_providers ai_list_tools ai_cost_today : Call
  ai_open_trust_window : (session_id : String) (tools : List String) (duration_secs : ℕ) → Call
  malformed : Endpoint → (status : ℕ) → Call

unfoldable pub endpoint_of : Call → Endpoint
endpoint_of Call.health = Endpoint.health
endpoint_of Call.launcher_version = Endpoint.launcher_version
endpoint_of Call.ws = Endpoint.ws
endpoint_of Call.excel_workbooks = Endpoint.excel_workbooks
endpoint_of (Call.handshake body) = Endpoint.handshake
endpoint_of (Call.fs_read path) = Endpoint.fs_read
endpoint_of (Call.run_python code) = Endpoint.run_python
endpoint_of (Call.bundle_read path) = Endpoint.bundle_read
endpoint_of (Call.excel_range_read workbook sheet range) = Endpoint.excel_range_read
endpoint_of (Call.bundle_write path payload) = Endpoint.bundle_write
endpoint_of (Call.ai_chat body) = Endpoint.ai_chat
endpoint_of (Call.ai_open_session provider model) = Endpoint.ai_open_session
endpoint_of (Call.ai_session_history id) = Endpoint.ai_session_history
endpoint_of (Call.ai_delete_provider_key provider) = Endpoint.ai_delete_provider_key
endpoint_of (Call.ai_set_provider_key provider key) = Endpoint.ai_set_provider_key
endpoint_of Call.ai_list_providers = Endpoint.ai_list_providers
endpoint_of Call.ai_list_tools = Endpoint.ai_list_tools
endpoint_of Call.ai_cost_today = Endpoint.ai_cost_today
endpoint_of (Call.ai_open_trust_window session_id tools duration_secs) =
    Endpoint.ai_open_trust_window
endpoint_of (Call.malformed e status) = e

-- `Json(…)` of a handler's value.
abbrev pub json : M Body → M Response
json m = m >>= λ b. pure (respond b)

-- The extension of the token record, which the framework answers with 500 where it is missing.
abbrev pub with_token : Request → (TokenRecord → M Response) → M Response
with_token req f = elim req.token_record [
  | none ↦ pure (record { status = 500; body = rejection; token_id = none })
  | some token ↦ f token
]

-- The handler of a call; `launcher` is the version of the package.
unfoldable pub handle : Env → String → Call → Request → M Response
handle env launcher Call.health req = json (Handshake.health launcher)
handle env launcher Call.launcher_version req = json (Handshake.launcher_version launcher)
handle env launcher Call.ws req =
    with_token req λ token. pure (record { status = 101; body = switching; token_id = none })
handle env launcher Call.excel_workbooks req = json (excel_workbooks_route env)
handle env launcher (Call.handshake body) req = json (Handshake.handshake env req body)
handle env launcher (Call.fs_read path) req =
    with_token req λ token. json (fs_read_route env token path)
handle env launcher (Call.run_python code) req = json (run_python_route env code)
handle env launcher (Call.bundle_read path) req =
    with_token req λ token. json (bundle_read_route env token path)
handle env launcher (Call.excel_range_read workbook sheet range) req =
    json (excel_range_read_route env workbook sheet range)
handle env launcher (Call.bundle_write path payload) req =
    with_token req λ token. json (bundle_write_route env token path payload)
handle env launcher (Call.ai_chat body) req = json (Assistant.ai_chat_route env body)
handle env launcher (Call.ai_open_session provider model) req =
    with_token req λ token. json (Assistant.ai_open_session env token provider model)
handle env launcher (Call.ai_session_history id) req = json (Assistant.ai_session_history env id)
handle env launcher (Call.ai_delete_provider_key provider) req =
    json (Assistant.ai_delete_provider_key env provider)
handle env launcher (Call.ai_set_provider_key provider key) req =
    json (Assistant.ai_set_provider_key env provider key)
handle env launcher Call.ai_list_providers req = json (Assistant.ai_list_providers env)
handle env launcher Call.ai_list_tools req = json (Assistant.ai_list_tools env)
handle env launcher Call.ai_cost_today req = json (Assistant.ai_cost_today env)
handle env launcher (Call.ai_open_trust_window session_id tools duration_secs) req =
    json (Assistant.ai_open_trust_window env session_id tools duration_secs)
handle env launcher (Call.malformed e status) req =
    pure (record { status = status; body = rejection; token_id = none })

-- One layer around what runs behind it.
unfoldable pub run_layer : Env → Layer → Next → Next
run_layer env host next req w = into_response (host_guard env req next w)
run_layer env origin next req w = into_response (origin_guard req next w)
run_layer env bearer next req w = into_response (bearer_guard env req next w)
run_layer env (scope need) next req w = into_response (require_scope need req next w)

unfoldable pub run_layers : Env → List Layer → Next → Next
run_layers env [] next = next
run_layers env (l ∷ ls) next = run_layer env l (run_layers env ls next)

-- `router`, on a request for a call of the table.
unfoldable pub router : Env → String → Call → Next
router env launcher call = audit_wrap env (
    run_layers env (layers (endpoint_of call))
      (λ req w. into_response (handle env launcher call req w)))
