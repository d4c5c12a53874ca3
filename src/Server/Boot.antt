-- ===== src/Server/Boot.antt =====
-- launcher/xlpod-server/src/lib.rs, `serve`, with `tls::load`, `AuditLog::open` and
-- `CostLedger::open`: what the server does before it listens, and how it fails.
pub mod Listening
use Prim.Native.String
use xlpod.Common.{
  ◌≡◌, refl, Bool, true, false, not, String, List, [], ◌∷◌, ◌++◌, Option, none, some, ◌⊎◌, inl, inr,
  arith, In, if◌then◌else◌, ◌≢◌, Option-cases, Bool-cases,
}
use xlpod.System.{World}
use xlpod.Server.Start.{
  PathBuf, IoError, SocketAddr, v4, addr_v4, TlsPaths, ServeOptions, Host, fresh,
}

-- `enum ServeError`.
pub data ServeError : Type 0 where
  tls audit bind : IoError → ServeError

-- `Display for ServeError`.
unfoldable pub display_error : ServeError → String
display_error (tls e) = String.◌++◌ "tls: " e
display_error (audit e) = String.◌++◌ "audit: " e
display_error (bind e) = String.◌++◌ "bind: " e

-- What the server asks of its host, the newest first; `listen_at` comes with the state of the
-- application.
pub data HostEvent : Type 0 where
  loaded : TlsPaths → HostEvent
  made_dir opened : PathBuf → HostEvent
  listen_at : SocketAddr → World → HostEvent

-- A step of the start: it adds events, and fails or goes on.
pub data Boot : Type 0 where
  going stopped : List HostEvent → Boot
  broken : ServeError → List HostEvent → Boot

infixl 5 ◌then◌
abbrev ◌then◌ : Boot → (List HostEvent → Boot) → Boot
(going es) then f = f es
(stopped es) then f = stopped es
(broken e es) then f = broken e es

-- A call of the host: the event, where it succeeds, or the error.
abbrev attempt : Option IoError → (IoError → ServeError) → HostEvent → List HostEvent → Boot
attempt none wrap event es = going (event ∷ es)
attempt (some e) wrap event es = broken (wrap e) es

abbrev not_found : String → PathBuf → IoError
not_found what path = String.◌++◌ what (String.◌++◌ " not found at " path)

-- `tls::load`.
unfoldable pub load : Host → TlsPaths → List HostEvent → Boot
load host paths es =
    let loading = attempt (host.from_pem_file paths.cert paths.key) tls (loaded paths) es in
    if not (host.exists paths.cert)
    then broken (tls (not_found "TLS cert" paths.cert)) es
    else if not (host.exists paths.key)
    then broken (tls (not_found "TLS key" paths.key)) es
    else loading

-- `tokio::fs::create_dir_all(parent)`, where the path has a parent.
abbrev make_parent : Host → Option PathBuf → List HostEvent → Boot
make_parent host none es = going es
make_parent host (some p) es = attempt (host.create_dir_all p) audit (made_dir p) es

-- `AuditLog::open` and `CostLedger::open`, whose errors `serve` gives one name.
unfoldable pub open_log : Host → PathBuf → List HostEvent → Boot
open_log host path es =
    make_parent host (host.parent path) es
    then (λ fs. attempt (host.open_append path) audit (opened path) fs)

-- The last line of `serve`: it listens until the listener ends.
unfoldable pub listen : Host → ServeOptions → List HostEvent → Boot
listen host opts es = elim (host.bind_rustls addr_v4) [
  | none ↦ stopped (listen_at addr_v4 (fresh opts.daily_budget_micros) ∷ es)
  | some e ↦ broken (bind e) (listen_at addr_v4 (fresh opts.daily_budget_micros) ∷ es)
]

-- `serve`.
unfoldable pub serve : Host → ServeOptions → Boot
serve host opts =
    load host opts.tls []
    then open_log host opts.audit_path
    then open_log host opts.cost_path
    then listen host opts

abbrev pub events_of : Boot → List HostEvent
events_of (going es) = es
events_of (stopped es) = es
events_of (broken e es) = es

-- The host has not been asked to listen.
abbrev pub IsSilent : List HostEvent → Type 0
IsSilent [] = Unit
IsSilent (listen_at a w ∷ es) = ⊥
IsSilent (e ∷ es) = IsSilent es
