-- ===== src/Error.antt =====
-- launcher/xlpod-server/src/error.rs: the error type of the API, its HTTP statuses and its JSON body.
pub mod Decode
use xlpod.Common.{ℕ, String, Option, none, some}

-- `enum ApiError`.
pub data ApiError : Type 0 where
  origin_not_allowed host_not_allowed unauthorized scope_denied consent_denied : ApiError
  rate_limited bad_request reserved_scope forbidden_path path_too_large not_a_file : ApiError
  path_not_found worker_spawn_failed worker_timeout worker_crashed excel_not_available : ApiError
  excel_not_running excel_failed ai_provider_unconfigured ai_provider_upstream : ApiError
  ai_tool_denied ai_consent_denied ai_plan_only_violation ai_session_not_found : ApiError
  ai_trust_window_expired ai_budget_exceeded bundle_not_found bundle_too_large : ApiError
  bundle_corrupt bundle_schema_mismatch internal : ApiError

-- `struct ErrorBody`.
pub record ErrorBody : Type 0 where
  pub code : String
  pub message : String
  pub hint : Option String

-- `ApiError::status`.
unfoldable pub status : ApiError → ℕ
status origin_not_allowed = 403
status host_not_allowed = 403
status unauthorized = 401
status scope_denied = 403
status consent_denied = 403
status rate_limited = 429
status bad_request = 400
status reserved_scope = 400
status forbidden_path = 403
status path_too_large = 400
status not_a_file = 404
status path_not_found = 404
status worker_spawn_failed = 500
status worker_timeout = 504
status worker_crashed = 500
status excel_not_available = 503
status excel_not_running = 503
status excel_failed = 500
status ai_provider_unconfigured = 412
status ai_provider_upstream = 502
status ai_tool_denied = 403
status ai_consent_denied = 403
status ai_plan_only_violation = 409
status ai_session_not_found = 404
status ai_trust_window_expired = 403
status ai_budget_exceeded = 429
status bundle_not_found = 404
status bundle_too_large = 400
status bundle_corrupt = 422
status bundle_schema_mismatch = 422
status internal = 500

abbrev error_body : String → String → Option String → ErrorBody
error_body c m h = record { code = c; message = m; hint = h }

-- `ApiError::body`.
unfoldable pub body : ApiError → ErrorBody
body origin_not_allowed =
    error_body "origin_not_allowed" "request origin is not in the launcher allow-list"
      (some "only https://addin.xlwings.org is permitted")
body host_not_allowed =
    error_body "host_not_allowed" "Host header must be the loopback bind"
      (some "dns rebinding defense")
body unauthorized =
    error_body "unauthorized" "missing or invalid bearer token"
      (some "call POST /auth/handshake first")
body scope_denied = error_body "scope_denied" "token does not carry the required scope" none
body consent_denied =
    error_body "consent_denied" "user denied the handshake at the consent dialog"
      (some "ask the user to approve in the launcher tray")
body rate_limited =
    error_body "rate_limited" "too many requests for this token" (some "100 req/s per token")
body bad_request = error_body "bad_request" "request payload is malformed" none
body reserved_scope =
    error_body "reserved_scope" "requested scope is reserved for a future phase"
      (some "ai:* scopes are not active in Phase 1")
body forbidden_path =
    error_body "forbidden_path" "path is not under any of the token's approved fs roots"
      (some "widen fs_roots at handshake time")
body path_too_large =
    error_body "path_too_large" "file exceeds the launcher's read size limit"
      (some "Phase 3 cap is 10 MiB")
body not_a_file = error_body "not_a_file" "path exists but is not a regular file" none
body path_not_found = error_body "path_not_found" "path does not exist" none
body worker_spawn_failed =
    error_body "worker_spawn_failed" "could not start the python worker process"
      (some "install python on PATH or set XLPOD_PYTHON")
body worker_timeout =
    error_body "worker_timeout" "worker exceeded the wall-clock cap and was killed"
      (some "default cap is 30 seconds; the next call gets a fresh worker")
body worker_crashed =
    error_body "worker_crashed" "worker died mid-call"
      (some "the next call will spawn a fresh worker")
body excel_not_available =
    error_body "excel_not_available" "the worker's Python does not have pywin32 installed"
      (some "pip install pywin32 into the worker interpreter, or use XLPOD_PYTHON")
body excel_not_running =
    error_body "excel_not_running" "no running Excel instance to attach to"
      (some "open Excel and a workbook, then retry")
body excel_failed = error_body "excel_failed" "Excel COM call raised an exception" none
body ai_provider_unconfigured =
    error_body "ai_provider_unconfigured" "no API key for the requested provider in the OS keychain"
      (some "POST /ai/providers/key with the user's consent first")
body ai_provider_upstream =
    error_body "ai_provider_upstream" "the AI provider returned an error" none
body ai_tool_denied =
    error_body "ai_tool_denied" "the AI internal bearer does not carry the scope this tool requires"
      (some "widen the user's scopes at session open time")
body ai_consent_denied =
    error_body "ai_consent_denied" "user denied the per-call consent for an AI tool" none
body ai_plan_only_violation =
    error_body "ai_plan_only_violation" "model called a mutating tool while plan_only=true is set"
      (some "clear plan_only to apply, or accept the planned diff")
body ai_session_not_found =
    error_body "ai_session_not_found" "no session with that id (expired or never created)" none
body ai_trust_window_expired =
    error_body "ai_trust_window_expired" "the trust window has expired or was revoked"
      (some "open a new window via POST /ai/consent/window")
body ai_budget_exceeded =
    error_body "ai_budget_exceeded" "today's AI spend cap has been hit"
      (some "raise XLPOD_DAILY_BUDGET_MICROS or wait until tomorrow")
body bundle_not_found =
    error_body "bundle_not_found"
      "the workbook is a valid xlsx but does not contain an xlpod bundle" none
body bundle_too_large = error_body "bundle_too_large" "bundle exceeds the 64 MiB cap" none
body bundle_corrupt = error_body "bundle_corrupt" "bundle JSON or zip is malformed" none
body bundle_schema_mismatch =
    error_body "bundle_schema_mismatch" "bundle schema_version is newer than this launcher knows"
      (some "update xlpod-launcher")
body internal = error_body "internal" "internal server error" none
