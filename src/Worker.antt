-- ===== src/Worker.antt =====
-- launcher/xlpod-server/src/python_worker.rs: the shared worker process, driven by one JSON line
-- for each request and each response. The slot holds the next request id of the live process; the
-- lock that serialises the calls makes each call one step.
pub mod Lifecycle
pub mod Recovery
use xlpod.Common.{
  ℕ, suc, ◌+◌, ◌%◌, ◌^◌, Bool, true, false, not, ◌==◌, text_eq, String, List, [], ◌∷◌, ◌++◌, Option,
  none, some, if◌then◌else◌, is_empty_text,
}
use Prim.Native.String
use xlpod.Error.{
  ApiError, worker_spawn_failed, worker_timeout, worker_crashed, excel_not_available,
  excel_not_running, excel_failed, internal,
}
use xlpod.Json.{Value}
use xlpod.System.{
  Env, World, LineRead, line, end_of_file, read_failed, timed_out, ExecResult, spawned, sent,
  killed, Outcome, M, ◌>>=◌, ◌>>◌, pure, throw, guard, or_throw, draw, emit, reads, then_with,
  failed, done,
}

-- `find_python`.
unfoldable pub find_python : Env → List String
find_python env = elim env.python_override [
  | none ↦ "python" ∷ "python3" ∷ []
  | some custom ↦
      if is_empty_text custom then "python" ∷ "python3" ∷ [] else custom ∷ "python" ∷ "python3" ∷ []
]

-- The `XLPOD_CLIENT_PATH` of the child in `try_spawn`.
unfoldable pub client_path : Env → Option String
client_path env = elim env.client_override [
  | some custom ↦ if is_empty_text custom then none else some custom
  | none ↦ env.client_dir
]

-- `try_spawn`: whether the interpreter starts; a new worker counts its requests from 1.
unfoldable pub try_spawn : Env → String → M Bool
unfolding client_path
try_spawn env python = do
  started ← draw (λ n. env.spawn n python (client_path env))
  if started then (emit (spawned python (client_path env)) >> pure true) else pure false

-- The loop of `spawn_worker`: the first request id of the worker that started.
unfoldable pub spawn_first : Env → List String → M ℕ
spawn_first env [] = throw worker_spawn_failed
spawn_first env (python ∷ more) =
    let rest = spawn_first env more in
    try_spawn env python >>= λ started. if started then pure 1 else rest

-- `spawn_worker`.
unfoldable pub spawn_worker : Env → M ℕ
spawn_worker env = spawn_first env (find_python env)

-- `*guard = …`.
abbrev pub set_slot : Option ℕ → M (Unit {0})
set_slot slot w = done tt (record w { worker = slot })

-- `if guard.is_none() { *guard = Some(spawn_worker().await?); }`, and the worker's next id.
ready : Env → Option ℕ → M ℕ
ready env (some id) = pure id
ready env none = spawn_worker env >>= λ id. set_slot (some id) >> pure id

unfoldable pub ensure_worker : Env → M ℕ
unfolding ready
ensure_worker env = reads (λ w. w.worker) >>= ready env

-- A write or a flush that fails clears the slot.
or_crash : Bool → M (Unit {0})
or_crash ok = if ok then pure tt else (set_slot none >> throw worker_crashed)

-- The `match` on the line that was read. A worker that timed out is killed.
unfoldable pub receive : Env → LineRead → M Value
receive env end_of_file = set_slot none >> throw worker_crashed
receive env (line text) = or_throw (env.json.parse (env.trim text)) internal
receive env read_failed = set_slot none >> throw worker_crashed
receive env timed_out = emit killed >> (set_slot none >> throw worker_timeout)

-- The request line of `call`.
unfoldable pub request_value : Env → ℕ → String → Value → Value
request_value env id method params =
    env.json.object
      (("id", env.json.number id) ∷ ("method", env.json.string method) ∷ ("params", params) ∷ [])

-- `PythonWorker::call` on a worker that is live, with its next id.
unfoldable pub exchange : Env → ℕ → String → Value → M Value
unfolding or_crash
exchange env id method params = do
  set_slot (some ((id + 1) % 2 ^ 64))
  text ← or_throw (env.render (request_value env id method params)) internal
  emit (sent text)
  draw (λ n. env.write_all n (String.◌++◌ text "\n")) >>= or_crash
  draw env.flush >>= or_crash
  draw env.read_line >>= receive env

-- `PythonWorker::call`.
unfoldable pub call : Env → String → Value → M Value
call env method params = ensure_worker env >>= λ id. exchange env id method params

-- `PythonWorker::exec`.
unfoldable pub exec : Env → String → M ExecResult
exec env code = do
  value ← call env "exec" (env.json.object (("code", env.json.string code) ∷ []))
  or_throw (env.exec_of_value value) internal

abbrev pub bind_option {ℓ κ} : {A : Type ℓ} {B : Type κ} → Option A → (A → Option B) → Option B
bind_option none f = none
bind_option (some a) f = f a

abbrev pub unwrap_or {ℓ} : {A : Type ℓ} → Option A → A → A
unwrap_or none d = d
unwrap_or (some a) d = a

-- `resp.get(k).and_then(as_bool)` and `resp.get(k).and_then(as_str)`.
abbrev pub get_bool : Env → Value → String → Option Bool
get_bool env resp k = bind_option (env.json.get resp k) env.json.as_bool

abbrev pub get_str : Env → Value → String → Option String
get_str env resp k = bind_option (env.json.get resp k) env.json.as_str

-- The error of a worker's `error_code` in `excel_call`.
unfoldable pub excel_error : String → ApiError
excel_error code =
    if code == "excel_not_available"
    then excel_not_available
    else if code == "excel_not_running"
    then excel_not_running
    else excel_failed

-- `PythonWorker::excel_call`: only an explicit `"ok": false` is an error.
unfoldable pub excel_call : Env → String → Value → M Value
excel_call env method params = do
  resp ← call env method params
  if not (unwrap_or (get_bool env resp "ok") true)
      then throw (excel_error (unwrap_or (get_str env resp "error_code") ""))
      else pure resp
