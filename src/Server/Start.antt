-- ===== src/Server/Start.antt =====
-- launcher/xlpod-server/src/lib.rs, tls.rs, config.rs and bind.rs: the options of the server, its start,
-- and the state that it starts with. The machine is a record of oracles: environment variables,
-- paths as texts with the host's `Path::join` and `Path::parent`, files, and the TLS listener.
use xlpod.Common.{ℕ, Bool, String, List, [], ◌∷◌, Option, none, some, parse_u64}
use xlpod.Ai.Cost.{default_daily_budget_micros}
use xlpod.System.{World}

-- A `PathBuf`, and an error of the operating system by its text.
abbrev pub PathBuf : Type 0
PathBuf = String

abbrev pub IoError : Type 0
IoError = String

-- `SocketAddr`.
pub data SocketAddr : Type 0 where
  v4 : (a b c d port : ℕ) → SocketAddr
  v6 : (segments : List ℕ) (port : ℕ) → SocketAddr

-- `bind::PORT`, `addr_v4` and `addr_v6`.
abbrev pub port : ℕ
port = 7421

unfoldable pub addr_v4 : SocketAddr
addr_v4 = v4 127 0 0 1 port

unfoldable pub addr_v6 : SocketAddr
addr_v6 = v6 (0 ∷ 0 ∷ 0 ∷ 0 ∷ 0 ∷ 0 ∷ 0 ∷ 1 ∷ []) port

-- `config::allowed_hosts`.
unfoldable pub allowed_hosts : List String
allowed_hosts = "127.0.0.1:7421" ∷ "[::1]:7421" ∷ []

-- `struct TlsPaths`.
pub record TlsPaths : Type 0 where
  pub cert : PathBuf
  pub key : PathBuf

-- `struct ServeOptions`, but for the backends of consent and of the keychain, which are oracles.
pub record ServeOptions : Type 0 where
  pub tls : TlsPaths
  pub audit_path : PathBuf
  pub cost_path : PathBuf
  pub daily_budget_micros : ℕ

-- The host. `var` is `std::env::var(…).ok()`, and `var_os` is `std::env::var_os`; a `none` of a call
-- that may fail is its success.
pub record Host : Type 0 where
  pub var : String → Option String
  pub var_os : String → Option PathBuf
  pub temp_dir : PathBuf
  pub manifest_dir : PathBuf
  pub join : PathBuf → String → PathBuf
  pub parent : PathBuf → Option PathBuf
  pub exists : PathBuf → Bool
  pub from_pem_file : PathBuf → PathBuf → Option IoError
  pub create_dir_all : PathBuf → Option IoError
  pub open_append : PathBuf → Option IoError
  pub bind_rustls : SocketAddr → Option IoError

abbrev pub or_default : Option PathBuf → PathBuf → PathBuf
or_default none d = d
or_default (some p) d = p

-- `repo_default`: two levels above the package, or the empty path.
unfoldable pub repo_default : Host → String → PathBuf
repo_default host name =
    host.join (host.join (up_twice (host.parent host.manifest_dir)) ".certs") name
  where
    up_twice : Option PathBuf → PathBuf
    up_twice none = ""
    up_twice (some p) = or_default (host.parent p) ""

-- `TlsPaths::from_env_or_default`.
unfoldable pub tls_from_env : Host → TlsPaths
tls_from_env host = record {
  cert = or_default (host.var_os "XLPOD_TLS_CERT") (repo_default host "probe-cert.pem");
  key = or_default (host.var_os "XLPOD_TLS_KEY") (repo_default host "probe-key.pem");
}

-- `config::default_audit_path`.
unfoldable pub default_audit_path : Host → PathBuf
default_audit_path host =
    host.join (host.join (or_default (host.var_os "LOCALAPPDATA") host.temp_dir) "xlpod")
      "audit.log"

abbrev budget_or_default : Option ℕ → ℕ
budget_or_default none = default_daily_budget_micros
budget_or_default (some n) = n

abbrev parse_var : Option String → Option ℕ
parse_var none = none
parse_var (some s) = parse_u64 s

-- The default of the ledger's path: beside the audit log.
abbrev beside : Host → Option PathBuf → PathBuf
beside host none = "cost.jsonl"
beside host (some p) = host.join p "cost.jsonl"

-- `ServeOptions::from_env`.
unfoldable pub from_env : Host → ServeOptions
from_env host = record {
  tls = tls_from_env host;
  audit_path = audit_path;
  cost_path = or_default (host.var_os "XLPOD_COST_PATH") (beside host (host.parent audit_path));
  daily_budget_micros = budget_or_default (parse_var (host.var "XLPOD_DAILY_BUDGET_MICROS"));
}
  where
    audit_path : PathBuf
    audit_path = or_default (host.var_os "XLPOD_AUDIT_PATH") (default_audit_path host)

-- The state of the launcher when the server begins to listen: the stores of `AppState` are new.
unfoldable pub fresh : ℕ → World
fresh daily_budget_micros = record {
  tokens = [];
  limiter = [];
  audit = [];
  worker = none;
  sessions = [];
  windows = [];
  cost = record { lines = []; today = []; daily_cap_micros = daily_budget_micros };
  ticks = 0;
  trace = [];
}
