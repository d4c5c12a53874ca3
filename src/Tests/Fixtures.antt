-- ===== src/Tests/Fixtures.antt =====
-- The system of the tests: the environment, the state and a request of launcher/xlpod-server.
use xlpod.Common.{
  ◌+◌, ◌*◌, true, false, String, List, [], ◌∷◌, none, some, length, ltb, ◌==◌, text_eq,
  if◌then◌else◌,
}
use xlpod.Json.{Json}
use xlpod.Auth.{
  fs_read, run_python, ai_provider_call, ai_exec_python, bundle_write, FilePath, TokenRecord,
  second,
}
use xlpod.Ai.Types.{
  ContentBlock, text, tool_use, assistant, ChatMessage, user, end_turn, ChatRequest,
}
use xlpod.Ai.TrustWindow.{TrustWindow}
use xlpod.Ai.Session.{Session}
use xlpod.System.{Canonical, found, not_found, line, ExecResult, TurnResult, turn, Env, World}
use xlpod.Http.{visible, Request}

abbrev pub json : Json
json = record {
  get = λ v key. if key == "ok" then some "true" else some v;
  as_str = some;
  as_bool = λ v. some (v == "true");
  object = λ fields. "{}";
  array = λ items. "[]";
  string = λ s. s;
  flag = λ b. if b then "true" else "false";
  number = λ n. "0";
  parse = some;
}

abbrev pub notes : FilePath
notes = "/" ∷ "work" ∷ "notes.txt" ∷ []

abbrev pub work : FilePath
work = "/" ∷ "work" ∷ []

abbrev canonical : String → Canonical
canonical path =
    if path == "notes.txt" then found notes else if path == "/work" then found work else not_found

abbrev exec_result : ExecResult
exec_result = record { ok = true; stdout = ""; stderr = ""; result = some "4"; error = none }

abbrev answer : List ContentBlock → TurnResult
answer content = turn (record {
  message = record { role = assistant; ts_ms = none; content = content };
  stop_reason = end_turn;
  usage = record { input_tokens = 10; output_tokens = 20; cached_input_tokens = none };
})

-- A provider that first asks for a tool and then answers.
abbrev reply : List ChatMessage → TurnResult
reply history =
    if ltb (length history) 2
    then answer (tool_use "t1" "run_python" "2+2" ∷ [])
    else answer (text "4" ∷ [])

abbrev pub env : Env
env = record {
  json = json;
  render = some;
  exec_of_value = λ v. some exec_result;
  value_of_exec = λ r. some "{}";
  debug_error = λ e. "error";
  trim = λ s. s;
  decimal = λ n. "0";
  today = λ n. "2026-01-01";
  display = λ p. "/work/notes.txt";
  base64 = λ bytes. "AQID";
  uuid_text = λ id. "7";
  parse_uuid = λ s. some 7;
  instant = λ n. 10 * second + n;
  unix_ms = λ n. 1000 + n;
  window_ms = λ n i. 1000 + n;
  random_token = λ n. "0123456789abcdef";
  random_uuid = λ n. n;
  consent = λ n req. true;
  ai_consent = λ n req. true;
  canonicalize = λ n path. canonical path;
  is_dir = λ n p. true;
  metadata = λ n p. some (record { is_file = true; len = 3 });
  read = λ n p. some (1 ∷ 2 ∷ 3 ∷ []);
  python_override = none;
  client_override = none;
  client_dir = none;
  spawn = λ n python client. true;
  write_all = λ n s. true;
  flush = λ n. true;
  read_line = λ n. line "{}";
  read_key = λ n name. some (some "key");
  write_key = λ n name key. true;
  delete_key = λ n name. true;
  providers = "anthropic" ∷ [];
  chat = λ n provider history tools limit. reply history;
  allowed_hosts = "127.0.0.1:7421" ∷ [];
}

abbrev pub token : String
token = "fedcba9876543210"

abbrev pub rec : TokenRecord
rec = record {
  scopes = fs_read ∷ run_python ∷ ai_provider_call ∷ bundle_write ∷ [];
  fs_roots = work ∷ [];
  created = 9 * second;
  expires = 3609 * second;
}

abbrev pub session : Session
session = record {
  id = 7;
  provider = "anthropic";
  model = "claude-opus-4-6";
  internal_bearer = "internal";
  granted_scopes = fs_read ∷ ai_exec_python ∷ [];
  fs_roots = work ∷ [];
  messages = [];
  opened_ms = 1000;
}

abbrev pub win : TrustWindow
win = record { id = 5; session_id = 7; tools = "run_python" ∷ []; expires_ms = 61_000 }

abbrev pub world : World
world = record {
  tokens = (token, rec) ∷ [];
  limiter = [];
  audit = [];
  worker = some 4;
  sessions = (7, session) ∷ [];
  windows = (5, win) ∷ [];
  cost = record { lines = []; today = []; daily_cap_micros = 5_000_000 };
  ticks = 0;
  trace = [];
}

abbrev pub request : Request
request = record {
  method = "GET";
  path = "/fs/read";
  host = some (visible "127.0.0.1:7421");
  origin = some (visible "https://addin.xlwings.org");
  authorization = some (visible "Bearer fedcba9876543210");
  token_id = none;
  token_record = none;
}

abbrev pub question : ChatRequest
question = record {
  session_id = 7;
  messages = record { role = user; ts_ms = none; content = text "2+2?" ∷ [] } ∷ [];
  max_tokens = none;
  plan_only = false;
}
