-- ===== src/Tests/Server.antt =====
-- The server of launcher/xlpod-server/src/lib.rs on a concrete history, its start, and the worker
-- and the limiter after a failure.
use xlpod.Common.{◌+◌, ◌*◌, ◌≡◌, refl, ◌⊎◌, true, List, [], ◌∷◌, ◌++◌, none, some, text_eq, arith}
use xlpod.Auth.{fs_read, ai_provider_call, second, ok}
use xlpod.System.{World, AuditEntry}
use xlpod.RateLimit.{check}
use xlpod.RateLimit.Window.{History}
use xlpod.RateLimit.Recovery.{checks, check_recovers}
use xlpod.System.{Env, timed_out, line}
use xlpod.Common.{nat_beq, if◌then◌else◌}
use xlpod.Http.{visible, Next, Request, into_response}
use xlpod.Routes.Table.{Call, layers, endpoint_of, handle, run_layers, router}
use xlpod.Routes.Table.Mediation.{Turned}
use xlpod.Server.Consented.{Sound}
use xlpod.Server.Start.{ServeOptions, Host}
use xlpod.Server.History.{
  serve_all, served, served-Sound, present, Authorised, served-Authorised, Allowed, served-Allowed,
}
use xlpod.Server.Audit.{Recorded, serve_all-Recorded}
use xlpod.Server.Boot.{serve}
use xlpod.Server.Boot.Listening.{Failed, Listening, serve-Listening}
use xlpod.Tests.Fixtures.{env, world, request}

abbrev granted : Request
granted = record request { authorization = some (visible "Bearer 0123456789abcdef") }

-- A handshake for files and the AI bridge, and a session.
abbrev past : List (Call × Request)
past =
    (
      Call.handshake
          (record { requested_scopes = fs_read ∷ ai_provider_call ∷ []; fs_roots = "/work" ∷ [] }),
      request,
    )
    ∷ (Call.ai_open_session none none, granted)
    ∷ []

served-Sound_example : Sound (served env "0.1.0" 5_000_000 past)
served-Sound_example = served-Sound env "0.1.0" 5_000_000 past

serve_all-Recorded_example :
    (es : List AuditEntry) × ((serve_all env "0.1.0" past world).audit ≡ world.audit ++ es)
    × Recorded env "0.1.0" past world es
serve_all-Recorded_example = serve_all-Recorded env "0.1.0" past world

abbrev now : World
now = present env "0.1.0" 5_000_000 past granted

abbrev handler : Next
handler req w = into_response (handle env "0.1.0" (Call.fs_read "notes.txt") req w)

served-Authorised_example :
    let start = record now { ticks = now.ticks + 1 } in
    let o =
      run_layers env (layers (endpoint_of (Call.fs_read "notes.txt"))) handler granted start in
    ((router env "0.1.0" (Call.fs_read "notes.txt") granted now).0 ≡ o.0)
    × (Turned env fs_read granted handler start o
        ⊎ Authorised env "0.1.0" 5_000_000 past granted fs_read handler o)
unfolding layers endpoint_of
served-Authorised_example =
    served-Authorised env "0.1.0" 5_000_000 past granted (Call.fs_read "notes.txt") fs_read refl

served-Allowed_example :
    ((router env "0.1.0" (Call.fs_read "notes.txt") granted now).1.trace ≡ now.trace)
    ⊎ Allowed env "0.1.0" 5_000_000 past granted
        (router env "0.1.0" (Call.fs_read "notes.txt") granted now).1
served-Allowed_example = served-Allowed env "0.1.0" 5_000_000 past granted "notes.txt"

abbrev host : Host
host = record {
  var = λ name. none;
  var_os = λ name. none;
  temp_dir = "/tmp";
  manifest_dir = "/repo/launcher/xlpod-server";
  join = λ p name. name;
  parent = λ p. some "/repo";
  exists = λ p. true;
  from_pem_file = λ cert key. none;
  create_dir_all = λ p. none;
  open_append = λ p. none;
  bind_rustls = λ addr. none;
}

abbrev opts : ServeOptions
opts = record {
  tls = record { cert = "cert.pem"; key = "key.pem" };
  audit_path = "audit.log";
  cost_path = "cost.jsonl";
  daily_budget_micros = 5_000_000;
}

serve-Listening_example : Failed (serve host opts) ⊎ Listening host opts (serve host opts)
serve-Listening_example = serve-Listening host opts

abbrev burst : History
burst = ("a", 1 * second) ∷ ("b", 1 * second) ∷ ("a", 2 * second) ∷ []

check_recovers_example : (check "a" (4 * second) (checks [] burst)).0 ≡ ok tt
check_recovers_example =
    check_recovers "a" (4 * second) burst (omega arith, (omega arith, (omega arith, tt)))

-- The worker answers nothing that is read at the third call.
abbrev stuck : Env
stuck = record env { read_line = λ n. if nat_beq n 2 then timed_out else line "{}" }

abbrev busy : World
busy = record world { worker = some 5 }
