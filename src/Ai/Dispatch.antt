-- ===== src/Ai/Dispatch.antt =====
-- launcher/xlpod-server/src/ai/dispatch.rs: a model's tool call is checked, approved and executed.
pub mod Effects
pub mod Gate
pub mod Acts
use Prim.Native.String
use xlpod.Common.{
  ℕ, Bool, true, false, not, String, List, [], ◌∷◌, Option, none, some, contains, length,
  if◌then◌else◌, ◌==◌, text_eq,
}
use xlpod.Error.{ApiError, bad_request, ai_tool_denied, ai_plan_only_violation, ai_consent_denied}
use xlpod.Json.{Value}
use xlpod.Auth.{
  Scope, fs_read, fs_write, run_python, excel_com, ai_provider_call, ai_codegen_write,
  ai_exec_python, bundle_read, bundle_write, scope_eq,
}
use xlpod.Consent.{ConsentRequest}
use xlpod.Ai.Types.{
  Uuid, ContentBlock, tool_result, ApprovedVia, auto, dialog, trust_window, ToolSpec,
}
use xlpod.Ai.Tools.{find_tool}
use xlpod.Ai.TrustWindow.{covers}
use xlpod.Ai.Session.{Session}
use xlpod.System.{
  Env, World, ExecResult, Outcome, M, ◌>>=◌, ◌>>◌, pure, throw, guard, or_throw, draw, reads,
  ask_ai, then_with, done, failed,
}
use xlpod.FsRead.{read_under_roots}
use xlpod.Worker.{exec, excel_call, get_str, unwrap_or}

-- `error_payload`.
unfoldable pub error_payload : Env → ApiError → Value
error_payload env e = env.json.object (
    ("error", env.json.string (env.debug_error e))
    ∷ ("hint", env.json.string "tool execution failed; see launcher audit log for details")
    ∷ [])

-- The consent request of `run_one`.
unfoldable pub tool_request : Env → Session → ToolSpec → ConsentRequest
tool_request env session spec = record {
  origin =
      String.◌++◌ "ai://"
        (String.◌++◌ session.provider (String.◌++◌ "/" (env.uuid_text session.id)));
  scopes = spec.required_scope ∷ [];
  fs_roots = [];
}

-- `ctx.trust_windows.covers(ctx.session.id, name)`.
trusted : Env → Session → String → M Bool
trusted env session name = do
  windows ← reads (λ w. w.windows)
  draw (λ n. covers (env.window_ms n) session.id name windows)

-- The `approved_via` of `run_one`.
unfoldable pub approve : Env → Session → Bool → ToolSpec → String → M ApprovedVia
unfolding trusted
approve env session plan_only spec name =
    if spec.mutates
    then (do
      guard (not plan_only) ai_plan_only_violation
      covered ← trusted env session name
      if covered then pure trust_window else (do
        ok ← ask_ai env (tool_request env session spec)
        guard ok ai_consent_denied
        pure dialog))
    else pure auto

-- `run_fs_read`.
unfoldable pub run_fs_read : Env → Session → Value → M Value
run_fs_read env session input = do
  path ← or_throw (get_str env input "path") bad_request
  result ← read_under_roots env path session.fs_roots
  pure (
      env.json.object (
        ("path", env.json.string (env.display result.canonical))
        ∷ ("size", env.json.number (length result.bytes))
        ∷ ("encoding", env.json.string "base64")
        ∷ ("content", env.json.string (env.base64 result.bytes))
        ∷ []))

-- `resp.get(k).cloned().unwrap_or(d)`.
abbrev pub get_or_else : Env → Value → String → Value → Value
get_or_else env resp k d = unwrap_or (env.json.get resp k) d

-- `input.get(k).and_then(as_str).unwrap_or("")`.
abbrev text_of : Env → Value → String → Value
text_of env input k = env.json.string (unwrap_or (get_str env input k) "")

-- `run_excel`.
unfoldable pub run_excel : Env → String → Value → M Value
run_excel env name input =
    if name == "excel_workbooks"
    then (do
      resp ← excel_call env "excel_workbooks" (env.json.object [])
      pure (get_or_else env resp "workbooks" (env.json.array [])))
    else if name == "excel_range_read"
    then (do
      resp ← excel_call env "excel_range_read" (
          env.json.object (
            ("workbook", text_of env input "workbook")
            ∷ ("sheet", text_of env input "sheet")
            ∷ ("range", text_of env input "range")
            ∷ []))
      pure (
          env.json.object (
            ("address", get_or_else env resp "address" (env.json.string ""))
            ∷ ("values", get_or_else env resp "values" (env.json.array []))
            ∷ [])))
    else throw ai_tool_denied

-- `run_python`.
unfoldable pub run_python_tool : Env → Value → M Value
run_python_tool env input = do
  code ← or_throw (get_str env input "code") bad_request
  result ← exec env code
  pure (unwrap_or (env.value_of_exec result) (env.json.object []))

-- The last `match` of `run_one`.
unfoldable pub run_tool : Env → Session → Scope → String → Value → M Value
run_tool env session fs_read name input = run_fs_read env session input
run_tool env session excel_com name input = run_excel env name input
run_tool env session ai_exec_python name input = run_python_tool env input
run_tool env session _ name input = throw ai_tool_denied

-- `run_one`.
unfoldable pub run_one : Env → Session → Bool → String → Value → M (Value × ApprovedVia)
run_one env session plan_only name input = do
  spec ← or_throw (find_tool env.json name) ai_tool_denied
  guard (contains session.granted_scopes spec.required_scope) ai_tool_denied
  approved_via ← approve env session plan_only spec name
  value ← run_tool env session spec.required_scope name input
  pure (value, approved_via)

-- The `match` on the result in `execute_tool_use`: an error becomes a result block.
unfoldable pub as_block : Env → String → Outcome (Value × ApprovedVia) → Outcome ContentBlock
as_block env id (done (value, via) w) = done (tool_result id true value (some via)) w
as_block env id (failed e w) = done (tool_result id false (error_payload env e) none) w

-- `execute_tool_use`.
unfoldable pub execute_tool_use : Env → Session → Bool → String → String → Value → M ContentBlock
unfolding as_block
execute_tool_use env session plan_only id name input w =
    as_block env id (run_one env session plan_only name input w)
