-- ===== src/Server/Handlers.antt =====
-- Every handler of launcher/xlpod-server/src/routes.rs but two keeps the stored tokens and gives no
-- session more.
use xlpod.Common.{ℕ, refl, String, List, text_eq, Option, none, some}
use xlpod.Json.{Value}
use xlpod.Auth.{TokenRecord, scope_eq}
use xlpod.Ai.Types.{Uuid}
use xlpod.FsRead.Safety.{Stays-read_under_roots}
use xlpod.Worker.{call, exec, excel_call}
use xlpod.Worker.Lifecycle.{Stays-call}
use xlpod.Ai.Dispatch.Effects.{Stays-exec, Stays-excel_call}
use xlpod.Routes.Files.{
  fs_read_route, run_python_route, excel_workbooks_route, excel_range_read_route, bundle_read_route,
  bundle_write_route, ensure_path_under_roots, bundle_answer, canonical_or_missing,
}
use xlpod.System.{Env, M, Canonical, found, not_found, other_error}
use xlpod.System.Order.{Follows, Follows-bind, Follows-pure, Follows-throw, follows}
use xlpod.Http.{Body, Request, Response}
use xlpod.Routes.Assistant
use xlpod.Routes.Handshake
use xlpod.Routes.Table.{Call, handle, json, with_token}
use xlpod.Server.Steps.{Advances, Advances-Order, Advances-Blind, Follows-Stays, Follows-quiet}
use xlpod.Server.Chats.{Follows-ai_chat}
use xlpod.Ai.Chat.Following.{Follows-get}

module _ (env : Env) where
  Follows-call : (method : String) (params : Value) → Follows Advances (call env method params)
  Follows-call method params = Follows-Stays (Stays-call env method params)

  Follows-exec : (code : String) → Follows Advances (exec env code)
  Follows-exec code = Follows-Stays (Stays-exec env code)

  Follows-excel_call :
      (method : String) (params : Value) → Follows Advances (excel_call env method params)
  Follows-excel_call method params = Follows-Stays (Stays-excel_call env method params)

  Follows-fs_read_route :
      (token : TokenRecord) (path : String) → Follows Advances (fs_read_route env token path)
  unfolding fs_read_route
  Follows-fs_read_route token path =
      Follows-bind (Follows-Stays (Stays-read_under_roots env path token.fs_roots))
        λ r. Follows-pure _

  Follows-canonical_or_missing : (c : Canonical) → Follows Advances (canonical_or_missing c)
  unfolding canonical_or_missing
  Follows-canonical_or_missing (found p) = Follows-pure p
  Follows-canonical_or_missing not_found = Follows-throw _
  Follows-canonical_or_missing other_error = Follows-throw _

  Follows-ensure_path_under_roots :
      (path : String) (token : TokenRecord)
      → Follows Advances (ensure_path_under_roots env path token)
  unfolding ensure_path_under_roots
  Follows-ensure_path_under_roots path token =
      search (follows, Follows-canonical_or_missing) depth 9

  Follows-bundle_answer : (resp : Value) → Follows Advances (bundle_answer env resp)
  unfolding bundle_answer
  Follows-bundle_answer resp = search follows

  Follows-bundle_read_route :
      (token : TokenRecord) (path : String) → Follows Advances (bundle_read_route env token path)
  unfolding bundle_read_route
  Follows-bundle_read_route token path =
      search (follows, Follows-ensure_path_under_roots, Follows-call, Follows-bundle_answer) depth 9

  Follows-bundle_write_route :
      (token : TokenRecord) (path : String) (payload : Value)
      → Follows Advances (bundle_write_route env token path payload)
  unfolding bundle_write_route
  Follows-bundle_write_route token path payload =
      search (follows, Follows-ensure_path_under_roots, Follows-call, Follows-bundle_answer) depth
        14

  Follows-open_approved :
      (id : Uuid) (tools : List String) (secs : ℕ)
      → Follows Advances (Assistant.open_approved env id tools secs)
  unfolding Assistant.open_approved
  Follows-open_approved id tools secs = Follows-quiet _ (λ w. (refl, refl, refl, refl))

  Follows-ai_open_trust_window :
      (id : String) (tools : List String) (secs : ℕ)
      → Follows Advances (Assistant.ai_open_trust_window env id tools secs)
  unfolding Assistant.ai_open_trust_window
  Follows-ai_open_trust_window id tools secs =
      search (follows, Follows-get, Follows-open_approved) depth 14

  Follows-ai_set_provider_key :
      (provider key : String) → Follows Advances (Assistant.ai_set_provider_key env provider key)
  unfolding Assistant.ai_set_provider_key
  Follows-ai_set_provider_key provider key = search follows depth 14

  Follows-ai_delete_provider_key :
      (provider : String) → Follows Advances (Assistant.ai_delete_provider_key env provider)
  unfolding Assistant.ai_delete_provider_key
  Follows-ai_delete_provider_key provider = search follows depth 14

  Follows-ai_session_history :
      (id : String) → Follows Advances (Assistant.ai_session_history env id)
  unfolding Assistant.ai_session_history
  Follows-ai_session_history id = search (follows, Follows-get) depth 9

-- A call is neither the handshake nor the opening of a session.
abbrev pub IsOrdinary : Call → Type 0
IsOrdinary (Call.handshake body) = ⊥
IsOrdinary (Call.ai_open_session provider model) = ⊥
IsOrdinary _ = Unit

module _ (env : Env) (launcher : String) where
  answered : {m : M Body} → Follows Advances m → Follows Advances (json m)
  answered h = Follows-bind h λ b. Follows-pure _

  tokened :
      (req : Request) (f : TokenRecord → M Response)
      → ((t : TokenRecord) → Follows Advances (f t))
      → Follows Advances (with_token req f)
  tokened req f h = go req.token_record
    where
      go :
          (o : Option TokenRecord)
          → Follows Advances (with_token (record req { token_record = o }) f)
      go none = Follows-pure _
      go (some t) = h t

  -- Whatever the call, unless it is a handshake or opens a session: the handler keeps the stored
  -- tokens, gives no session more and only adds to the trace.
  pub Follows-handle :
      (call : Call) (req : Request)
      → IsOrdinary call
      → Follows Advances (handle env launcher call req)
  unfolding handle run_python_route excel_workbooks_route excel_range_read_route Handshake.health
      Handshake.launcher_version Assistant.ai_chat_route Assistant.ai_list_providers
      Assistant.ai_list_tools Assistant.ai_cost_today
  Follows-handle Call.health req i = search follows
  Follows-handle Call.launcher_version req i = search follows
  Follows-handle Call.ws req i = tokened req _ λ t. Follows-pure _
  Follows-handle Call.excel_workbooks req i = search (follows, Follows-excel_call) depth 9
  Follows-handle (Call.handshake body) req i = absurd i
  Follows-handle (Call.fs_read path) req i =
      tokened req _ λ t. answered (Follows-fs_read_route env t path)
  Follows-handle (Call.run_python code) req i = search (follows, Follows-exec) depth 9
  Follows-handle (Call.bundle_read path) req i =
      tokened req _ λ t. answered (Follows-bundle_read_route env t path)
  Follows-handle (Call.excel_range_read workbook sheet range) req i =
      search (follows, Follows-excel_call) depth 9
  Follows-handle (Call.bundle_write path payload) req i =
      tokened req _ λ t. answered (Follows-bundle_write_route env t path payload)
  Follows-handle (Call.ai_chat body) req i = search (follows, Follows-ai_chat) depth 9
  Follows-handle (Call.ai_open_session provider model) req i = absurd i
  Follows-handle (Call.ai_session_history id) req i = answered (Follows-ai_session_history env id)
  Follows-handle (Call.ai_delete_provider_key provider) req i =
      answered (Follows-ai_delete_provider_key env provider)
  Follows-handle (Call.ai_set_provider_key provider key) req i =
      answered (Follows-ai_set_provider_key env provider key)
  Follows-handle Call.ai_list_providers req i = search follows depth 9
  Follows-handle Call.ai_list_tools req i = search follows
  Follows-handle Call.ai_cost_today req i = search follows depth 9
  Follows-handle (Call.ai_open_trust_window id tools secs) req i =
      answered (Follows-ai_open_trust_window env id tools secs)
  Follows-handle (Call.malformed e status) req i = Follows-pure _
