-- ===== src/Error/Decode.antt =====
-- What a receiver recovers from an error response: the codes of launcher/xlpod-server/src/error.rs
-- tell all errors apart.
use xlpod.Common.{◌≤◌, ◌≡◌, refl, ap, String, Option, some, List, [], ◌∷◌, arith, lookup, text_eq}
use xlpod.Error.{
  ApiError, status, body, origin_not_allowed, host_not_allowed, unauthorized, scope_denied,
  consent_denied, rate_limited, bad_request, reserved_scope, forbidden_path, path_too_large,
  not_a_file, path_not_found, worker_spawn_failed, worker_timeout, worker_crashed,
  excel_not_available, excel_not_running, excel_failed, ai_provider_unconfigured,
  ai_provider_upstream, ai_tool_denied, ai_consent_denied, ai_plan_only_violation,
  ai_session_not_found, ai_trust_window_expired, ai_budget_exceeded, bundle_not_found,
  bundle_too_large, bundle_corrupt, bundle_schema_mismatch, internal,
}

-- The error of a code.
table : List (String × ApiError)
table =
    ("origin_not_allowed", origin_not_allowed)
    ∷ ("host_not_allowed", host_not_allowed)
    ∷ ("unauthorized", unauthorized)
    ∷ ("scope_denied", scope_denied)
    ∷ ("consent_denied", consent_denied)
    ∷ ("rate_limited", rate_limited)
    ∷ ("bad_request", bad_request)
    ∷ ("reserved_scope", reserved_scope)
    ∷ ("forbidden_path", forbidden_path)
    ∷ ("path_too_large", path_too_large)
    ∷ ("not_a_file", not_a_file)
    ∷ ("path_not_found", path_not_found)
    ∷ ("worker_spawn_failed", worker_spawn_failed)
    ∷ ("worker_timeout", worker_timeout)
    ∷ ("worker_crashed", worker_crashed)
    ∷ ("excel_not_available", excel_not_available)
    ∷ ("excel_not_running", excel_not_running)
    ∷ ("excel_failed", excel_failed)
    ∷ ("ai_provider_unconfigured", ai_provider_unconfigured)
    ∷ ("ai_provider_upstream", ai_provider_upstream)
    ∷ ("ai_tool_denied", ai_tool_denied)
    ∷ ("ai_consent_denied", ai_consent_denied)
    ∷ ("ai_plan_only_violation", ai_plan_only_violation)
    ∷ ("ai_session_not_found", ai_session_not_found)
    ∷ ("ai_trust_window_expired", ai_trust_window_expired)
    ∷ ("ai_budget_exceeded", ai_budget_exceeded)
    ∷ ("bundle_not_found", bundle_not_found)
    ∷ ("bundle_too_large", bundle_too_large)
    ∷ ("bundle_corrupt", bundle_corrupt)
    ∷ ("bundle_schema_mismatch", bundle_schema_mismatch)
    ∷ ("internal", internal)
    ∷ []

decode : String → Option ApiError
unfolding table
decode c = lookup c table

decode-code : (e : ApiError) → decode (body e).code ≡ some e
unfolding decode body lookup
decode-code origin_not_allowed = refl
decode-code host_not_allowed = refl
decode-code unauthorized = refl
decode-code scope_denied = refl
decode-code consent_denied = refl
decode-code rate_limited = refl
decode-code bad_request = refl
decode-code reserved_scope = refl
decode-code forbidden_path = refl
decode-code path_too_large = refl
decode-code not_a_file = refl
decode-code path_not_found = refl
decode-code worker_spawn_failed = refl
decode-code worker_timeout = refl
decode-code worker_crashed = refl
decode-code excel_not_available = refl
decode-code excel_not_running = refl
decode-code excel_failed = refl
decode-code ai_provider_unconfigured = refl
decode-code ai_provider_upstream = refl
decode-code ai_tool_denied = refl
decode-code ai_consent_denied = refl
decode-code ai_plan_only_violation = refl
decode-code ai_session_not_found = refl
decode-code ai_trust_window_expired = refl
decode-code ai_budget_exceeded = refl
decode-code bundle_not_found = refl
decode-code bundle_too_large = refl
decode-code bundle_corrupt = refl
decode-code bundle_schema_mismatch = refl
decode-code internal = refl

-- Two errors that answer with one code are the same error, so a client that dispatches on the code
-- never confuses two of them.
pub code_injective : (a b : ApiError) → (body a).code ≡ (body b).code → a ≡ b
code_injective a b h = cc (decode-code a, decode-code b, ap decode h)

-- Every error is answered with an HTTP client or server error status, between 400 and 504, so no
-- error is ever read as a success.
pub status-bounds : (e : ApiError) → (400 ≤ status e) × (status e ≤ 504)
unfolding status
status-bounds e = ground arith
