-- ===== src/Middleware.antt =====
-- launcher/xlpod-server/src/middleware.rs: the guards before a handler, and the audit wrapper.
pub mod Guards
use xlpod.Common.{
  ℕ, ◌-◌, ◌/◌, ◌%◌, ◌^◌, ◌+◌, Bool, true, false, not, String, List, [], ◌∷◌, ◌++◌, Option, none,
  some, contains, strip_prefix, is_empty_text, if◌then◌else◌, text_eq,
}
use xlpod.Error.{ApiError, host_not_allowed, origin_not_allowed, unauthorized, scope_denied}
use xlpod.Auth.{Scope, TokenRecord, Result, ok, err, lookup_token, id_of, scope_eq}
use xlpod.RateLimit.{check}
use xlpod.System.{
  Env, World, AuditEntry, Outcome, M, ◌>>=◌, ◌>>◌, pure, throw, guard, or_throw, lift, draw, reads,
  then_with, done, failed,
}
use xlpod.Http.{HeaderValue, Request, Response, Next, run_next, header_str, into_response}

-- `config::ALLOWED_ORIGINS`.
abbrev pub allowed_origins : List String
allowed_origins = "https://addin.xlwings.org" ∷ []

-- `host_guard`.
unfoldable pub host_guard : Env → Request → Next → M Response
host_guard env req next = do
  host ← or_throw (header_str req.host) host_not_allowed
  guard (contains env.allowed_hosts host) host_not_allowed
  run_next next req

-- `origin_guard`.
unfoldable pub origin_guard : Request → Next → M Response
origin_guard req next = do
  origin ← or_throw (header_str req.origin) origin_not_allowed
  guard (contains allowed_origins origin) origin_not_allowed
  run_next next req

-- `if stripped.is_empty() { None } else { Some(…) }`.
abbrev non_empty : Option String → Option String
non_empty none = none
non_empty (some s) = if is_empty_text s then none else some s

abbrev strip_bearer : Option String → Option String
strip_bearer none = none
strip_bearer (some auth) = strip_prefix "Bearer " auth

-- `bearer_token`.
unfoldable pub bearer_token : Request → Option String
bearer_token req = non_empty (strip_bearer (header_str req.authorization))

-- `state.limiter.check(key)?`.
unfoldable pub check_limit : String → ℕ → M (Unit {0})
check_limit key now w =
    let (answer, limiter) = check key now w.limiter in lift answer (record w { limiter = limiter })

-- `bearer_guard`.
unfoldable pub bearer_guard : Env → Request → Next → M Response
bearer_guard env req next = do
  token ← or_throw (bearer_token req) unauthorized
  now ← draw env.instant
  found ← reads (λ w. lookup_token token now w.tokens)
  rec ← lift found
  later ← draw env.instant
  check_limit (id_of token) later
  response ← run_next next (record req { token_id = some (id_of token); token_record = some rec })
  pure (record response { token_id = some (id_of token) })

-- `require_scope`.
unfoldable pub require_scope : Scope → Request → Next → M Response
require_scope need req next = do
  rec ← or_throw req.token_record unauthorized
  guard (contains rec.scopes need) scope_denied
  run_next next req

-- `.or(token_id)`.
abbrev pub or_else : Option String → Option String → Option String
or_else none b = b
or_else (some a) b = some a

-- `audit_wrap`.
unfoldable pub audit_wrap : Env → Next → Next
audit_wrap env next req w =
    (response, record w' { ticks = w'.ticks + 2; audit = w'.audit ++ entry ∷ [] })
  where
    start : ℕ
    start = env.instant w.ticks

    ran : Response × World
    ran = next req (record w { ticks = w.ticks + 1 })

    response : Response
    response = ran.0

    w' : World
    w' = ran.1

    entry : AuditEntry
    entry = record {
      ts_ms = env.unix_ms (w'.ticks + 1);
      actor = "user";
      token_id = or_else response.token_id req.token_id;
      method = req.method;
      path = req.path;
      status = response.status;
      origin = header_str req.origin;
      host = header_str req.host;
      latency_ms = (env.instant w'.ticks - start) / 1_000_000 % 2 ^ 64;
    }
