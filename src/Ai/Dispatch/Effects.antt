-- ===== src/Ai/Dispatch/Effects.antt =====
-- What the tools of launcher/xlpod-server/src/ai/dispatch.rs do outside.
use xlpod.Common.{◌≡◌, ◌⊎◌, inl, inr, String, [], ◌∷◌, some, text_eq, ◌==◌}
use xlpod.Error.{ai_tool_denied, bad_request}
use xlpod.Json.{Value}
use xlpod.Auth.{Scope, fs_read, excel_com, ai_exec_python, scope_eq}
use xlpod.Ai.Session.{Session}
use xlpod.FsRead.Safety.{IsReadUnder, Stays-read_under_roots}
use xlpod.Worker.{exec, excel_call, get_str}
use xlpod.Worker.Lifecycle.{IsCall, Stays-call}
use xlpod.System.{Env, Event}
use xlpod.System.Logic.{
  Stays, Stays-throw, Stays-bind, Stays-if, Stays-pure, Stays-known, Stays-mono, stays,
}
use xlpod.Ai.Dispatch.{text_of, run_fs_read, run_excel, run_python_tool, run_tool}

-- The requests to the worker that the Excel tools make of their input.
abbrev pub IsExcelCall : Env → Value → Event → Type 0
IsExcelCall env input e =
    IsCall env "excel_workbooks" (env.json.object []) e
    ⊎ IsCall env "excel_range_read"
        (env.json.object (
          ("workbook", text_of env input "workbook")
          ∷ ("sheet", text_of env input "sheet")
          ∷ ("range", text_of env input "range")
          ∷ []))
        e

-- The request to run the code of the input.
abbrev pub IsExecCall : Env → String → Event → Type 0
IsExecCall env code = IsCall env "exec" (env.json.object (("code", env.json.string code) ∷ []))

-- What a tool may do by the scope that it requires: read a file under one of the session's roots,
-- send the worker one of the two requests to Excel with the workbook, sheet and range of its input,
-- or send it the code of its input.
abbrev pub MayDo : Env → Session → Value → Scope → Event → Type 0
MayDo env session input fs_read e = IsReadUnder session.fs_roots e
MayDo env session input excel_com e = IsExcelCall env input e
MayDo env session input ai_exec_python e =
    (code : String) × (get_str env input "code" ≡ some code) × IsExecCall env code e
MayDo env session input _ e = ⊥

module _ (env : Env) where
  pub Stays-exec : (code : String) → Stays (IsExecCall env code) (exec env code)
  unfolding exec
  Stays-exec code = search (stays, Stays-call) depth 9

  pub Stays-excel_call :
      (method : String) (params : Value)
      → Stays (IsCall env method params) (excel_call env method params)
  unfolding excel_call
  Stays-excel_call method params = search (stays, Stays-call) depth 9

  Stays-run_fs_read :
      (session : Session) (input : Value)
      → Stays (IsReadUnder session.fs_roots) (run_fs_read env session input)
  unfolding run_fs_read
  Stays-run_fs_read session input = search (stays, Stays-read_under_roots) depth 9

  Stays-run_excel :
      (name : String) (input : Value) → Stays (IsExcelCall env input) (run_excel env name input)
  unfolding run_excel
  Stays-run_excel name input =
      Stays-if (name == "excel_workbooks")
        (Stays-bind (Stays-mono (λ e h. inl h) (Stays-excel_call _ _)) λ resp. Stays-pure _)
        (Stays-if (name == "excel_range_read")
          (Stays-bind (Stays-mono (λ e h. inr h) (Stays-excel_call _ _)) λ resp. Stays-pure _)
          (Stays-throw ai_tool_denied))

  Stays-run_python_tool :
      (session : Session) (input : Value)
      → Stays (MayDo env session input ai_exec_python) (run_python_tool env input)
  unfolding run_python_tool
  Stays-run_python_tool session input =
      Stays-known (get_str env input "code") bad_request λ code given.
        Stays-bind (Stays-mono (λ e h. (code, given, h)) (Stays-exec code)) λ result. Stays-pure _

  -- A tool that runs does only what its scope allows, and changes no store of the launcher.
  pub Stays-run_tool :
      (session : Session) (scope : Scope) (name : String) (input : Value)
      → Stays (MayDo env session input scope) (run_tool env session scope name input)
  unfolding run_tool
  Stays-run_tool session fs_read name input = Stays-run_fs_read session input
  Stays-run_tool session excel_com name input = Stays-run_excel name input
  Stays-run_tool session ai_exec_python name input = Stays-run_python_tool session input
  Stays-run_tool session _ name input = Stays-throw ai_tool_denied
