-- ===== src/System/Types.antt =====
-- The environment, the effects and the mutable state of the launcher
-- (launcher/xlpod-server/src/state.rs, ai/mod.rs, ai/provider.rs).
use xlpod.Common.{ℕ, Bool, String, List, Option}
use xlpod.Error.{ApiError}
use xlpod.Json.{Value, Json}
use xlpod.Auth.{FilePath, TokenStore}
use xlpod.RateLimit.{RateLimiter}
use xlpod.Consent.{ConsentRequest}
use xlpod.Ai.Types.{Uuid, ChatMessage, StopReason, Usage, ToolSpec}
use xlpod.Ai.TrustWindow.{TrustWindowStore}
use xlpod.Ai.Session.{SessionStore}
use xlpod.Ai.Cost.{CostLedger}

-- The answer of `fs::canonicalize`.
pub data Canonical : Type 0 where
  found : FilePath → Canonical
  not_found other_error : Canonical

-- `fs::Metadata`.
pub record Metadata : Type 0 where
  pub is_file : Bool
  pub len : ℕ

-- The answer of a read of one line under a timeout.
pub data LineRead : Type 0 where
  line : String → LineRead
  end_of_file read_failed timed_out : LineRead

-- `struct ExecResult` of python_worker.rs.
pub record ExecResult : Type 0 where
  pub ok : Bool
  pub stdout : String
  pub stderr : String
  pub result : Option String
  pub error : Option String

-- `enum ProviderError` and `struct ProviderTurn` of ai/provider.rs.
pub data ProviderError : Type 0 where
  unconfigured : ProviderError
  upstream decode : String → ProviderError

pub record ProviderTurn : Type 0 where
  pub message : ChatMessage
  pub stop_reason : StopReason
  pub usage : Usage

pub data TurnResult : Type 0 where
  turn : ProviderTurn → TurnResult
  turn_failed : ProviderError → TurnResult

pub record Env : Type 0 where
  pub json : Json
  -- `serde_json::to_string`, and serde's conversions of an `ExecResult`.
  pub render : Value → Option String
  pub exec_of_value : Value → Option ExecResult
  pub value_of_exec : ExecResult → Option Value
  -- `Debug` on an error, `str::trim`, `Path::display` and `to_string_lossy`.
  pub debug_error : ApiError → String
  pub trim : String → String
  -- `Display` on an integer, and today's date in UTC.
  pub decimal : ℕ → String
  pub today : ℕ → String
  pub display : FilePath → String
  -- base64's standard encoding.
  pub base64 : List ℕ → String
  -- uuid's text form and its parser.
  pub uuid_text : Uuid → String
  pub parse_uuid : String → Option Uuid
  -- `Instant::now` in nanoseconds and `SystemTime::now` in milliseconds; `window_ms n i` is the
  -- time that the window at place `i` reads.
  pub instant : ℕ → ℕ
  pub unix_ms : ℕ → ℕ
  pub window_ms : ℕ → ℕ → ℕ
  -- `hex::encode` of 32 bytes of `OsRng`, and `Uuid::new_v4`.
  pub random_token : ℕ → String
  pub random_uuid : ℕ → Uuid
  -- The consent backends of the server and of the AI bridge.
  pub consent : ℕ → ConsentRequest → Bool
  pub ai_consent : ℕ → ConsentRequest → Bool
  -- `fs::canonicalize`, `Path::is_dir`, `fs::metadata` and `fs::read`.
  pub canonicalize : ℕ → String → Canonical
  pub is_dir : ℕ → FilePath → Bool
  pub metadata : ℕ → FilePath → Option Metadata
  pub read : ℕ → FilePath → Option (List ℕ)
  -- `XLPOD_PYTHON`, `XLPOD_CLIENT_PATH` and the `client` folder of the repository, if it exists.
  pub python_override : Option String
  pub client_override : Option String
  pub client_dir : Option String
  -- The worker process: spawning it, and its pipes.
  pub spawn : ℕ → String → Option String → Bool
  pub write_all : ℕ → String → Bool
  pub flush : ℕ → Bool
  pub read_line : ℕ → LineRead
  -- `Keychain::read`, `write` and `delete`; the first is `none` where the call fails.
  pub read_key : ℕ → String → Option (Option String)
  pub write_key : ℕ → String → String → Bool
  pub delete_key : ℕ → String → Bool
  -- The registered providers, and `Provider::chat`.
  pub providers : List String
  pub chat : ℕ → String → List ChatMessage → List ToolSpec → Option ℕ → TurnResult
  -- `AppState::allowed_hosts`.
  pub allowed_hosts : List String

-- The external effects that the theorems speak of.
pub data Event : Type 0 where
  asked : ConsentRequest → Bool → Event
  ai_asked : ConsentRequest → Bool → Event
  read_file : FilePath → List ℕ → Event
  spawned : String → Option String → Event
  sent : String → Event
  killed : Event
  called_provider : String → List ChatMessage → Event
  key_written : String → String → Event
  key_deleted : String → Event

-- `struct AuditEntry` of audit.rs; the actor is always "user".
pub record AuditEntry : Type 0 where
  pub ts_ms : ℕ
  pub actor : String
  pub token_id : Option String
  pub method : String
  pub path : String
  pub status : ℕ
  pub origin : Option String
  pub host : Option String
  pub latency_ms : ℕ

-- `worker` is the slot of python_worker.rs: the next request id of the live process.
pub record World : Type 0 where
  pub tokens : TokenStore
  pub limiter : RateLimiter
  pub audit : List AuditEntry
  pub worker : Option ℕ
  pub sessions : SessionStore
  pub windows : TrustWindowStore
  pub cost : CostLedger
  pub ticks : ℕ
  pub trace : List Event
