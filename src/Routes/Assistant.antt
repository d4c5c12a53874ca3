-- ===== src/Routes/Assistant.antt =====
-- launcher/xlpod-server/src/routes.rs, `/ai/*` but for the chat loop, which is Ai/Chat.
pub mod Scopes
pub mod Opening
use Prim.Native.String
use Prim.Native.Nat.{Ordering}
use xlpod.Common.{
  ℕ, Bool, true, false, not, ◌==◌, text_eq, String, List, [], ◌∷◌, Option, none, some, contains,
  filter, map, if◌then◌else◌,
}
use xlpod.Error.{ApiError, bad_request, consent_denied, ai_consent_denied, internal}
use xlpod.Json.{Json, Value}
use xlpod.Auth.{
  Scope, fs_read, fs_write, run_python, excel_com, ai_provider_call, ai_codegen_write,
  ai_exec_python, bundle_read, bundle_write, TokenRecord, scope_eq,
}
use xlpod.Consent.{ConsentRequest}
use xlpod.System.{
  Env, World, key_written, key_deleted, Outcome, M, ◌>>=◌, ◌>>◌, pure, throw, guard, or_throw, draw,
  emit, ask_ai, reads, then_with, done, failed,
}
use xlpod.Ai.Types.{Uuid, ToolSpec, ChatRequest}
use xlpod.Ai.Tools.{builtin_tools}
use xlpod.Ai.Session.{Session, open_session}
use xlpod.Ai.TrustWindow.{TrustWindow, open_window}
use xlpod.Ai.Cost.{rollup}
use xlpod.Ai.Chat.{get, ai_chat}
use xlpod.Worker.{unwrap_or}
use xlpod.Http.{
  Body, json_body, session_body, chat_body, providers_body, tools_body, history_body, cost_body,
  window_body,
}

-- `anthropic::DEFAULT_MODEL`.
abbrev pub default_model : String
default_model = "claude-opus-4-6"

-- The derived `Debug` name of a scope.
abbrev pub debug_name : Scope → String
debug_name fs_read = "FsRead"
debug_name fs_write = "FsWrite"
debug_name run_python = "RunPython"
debug_name excel_com = "ExcelCom"
debug_name ai_provider_call = "AiProviderCall"
debug_name ai_codegen_write = "AiCodegenWrite"
debug_name ai_exec_python = "AiExecPython"
debug_name bundle_read = "BundleRead"
debug_name bundle_write = "BundleWrite"

-- `a <= b` on texts.
abbrev text_leb : String → String → Bool
text_leb a b = elim (String.compare a b) [ Ordering.gt ↦ false | _ ↦ true ]

-- `sort_by_key(|s| format!("{s:?}"))`: stable, by insertion from the right.
abbrev insert_scope : Scope → List Scope → List Scope
insert_scope s [] = s ∷ []
insert_scope s (t ∷ ts) =
    let rest = insert_scope s ts in
    if text_leb (debug_name s) (debug_name t) then s ∷ t ∷ ts else t ∷ rest

abbrev sort_scopes : List Scope → List Scope
sort_scopes [] = []
sort_scopes (s ∷ ss) = insert_scope s (sort_scopes ss)

abbrev dedup_from : Scope → List Scope → List Scope
dedup_from s [] = s ∷ []
dedup_from s (t ∷ ts) =
    let same = dedup_from s ts in let other = s ∷ dedup_from t ts in if s == t then same else other

-- `dedup()`.
abbrev dedup : List Scope → List Scope
dedup [] = []
dedup (s ∷ ss) = dedup_from s ss

-- The scopes of a new session: those of the user that some tool requires.
unfoldable pub session_scopes : Json → List Scope → List Scope
unfolding builtin_tools
session_scopes json user_scopes = dedup (
    sort_scopes
      (filter (λ s. contains user_scopes s) (map (λ t. t.required_scope) (builtin_tools json))))

-- `state.ai.sessions.open(…)`.
unfoldable pub open_one : Env → TokenRecord → String → String → M Session
open_one env token provider model = do
  id ← draw env.random_uuid
  now ← draw env.unix_ms
  λ w.
      done
        (open_session id now provider model "internal" (session_scopes env.json token.scopes)
          token.fs_roots w.sessions).0
        (record w {
          sessions =
              (open_session id now provider model "internal" (session_scopes env.json token.scopes)
                token.fs_roots w.sessions).1;
        })

-- `ai_open_session`.
unfoldable pub ai_open_session : Env → TokenRecord → Option String → Option String → M Body
unfolding open_one
ai_open_session env token provider model = do
  session ← open_one env token (unwrap_or provider "anthropic") (unwrap_or model default_model)
  pure (
      session_body (env.uuid_text session.id) session.provider session.model session.granted_scopes
        session.opened_ms)

-- `ai_chat` as a route.
unfoldable pub ai_chat_route : Env → ChatRequest → M Body
ai_chat_route env body = do r ← ai_chat env body; pure (chat_body r)

abbrev has_key : Option (Option String) → Bool
has_key (some (some key)) = true
has_key (some none) = false
has_key none = false

-- `ai_list_providers`.
unfoldable pub ai_list_providers : Env → M Body
ai_list_providers env = do
  key ← draw (λ n. env.read_key n "anthropic_api_key")
  pure (providers_body (("anthropic", has_key key) ∷ []))

abbrev pub key_request : String → ConsentRequest
key_request origin = record { origin = origin; scopes = []; fs_roots = [] }

ok_body : Env → Body
ok_body env = json_body (env.json.object (("ok", env.json.flag true) ∷ []))

-- `ai_set_provider_key`.
unfoldable pub ai_set_provider_key : Env → (provider key : String) → M Body
unfolding ok_body
ai_set_provider_key env provider key = do
  guard (provider == "anthropic") bad_request
  approved ← ask_ai env (key_request (String.◌++◌ "ai-key://" provider))
  guard approved consent_denied
  emit (key_written (String.◌++◌ provider "_api_key") key)
  written ← draw (λ n. env.write_key n (String.◌++◌ provider "_api_key") key)
  guard written internal
  pure (ok_body env)

-- `ai_delete_provider_key`.
unfoldable pub ai_delete_provider_key : Env → String → M Body
unfolding ok_body
ai_delete_provider_key env provider = do
  approved ← ask_ai env (key_request (String.◌++◌ "ai-key-delete://" provider))
  guard approved consent_denied
  emit (key_deleted (String.◌++◌ provider "_api_key"))
  deleted ← draw (λ n. env.delete_key n (String.◌++◌ provider "_api_key"))
  guard deleted internal
  pure (ok_body env)

-- `ai_list_tools`.
unfoldable pub ai_list_tools : Env → M Body
ai_list_tools env = pure (tools_body (builtin_tools env.json))

-- `ai_session_history`.
unfoldable pub ai_session_history : Env → String → M Body
ai_session_history env id = do
  uuid ← or_throw (env.parse_uuid id) bad_request
  session ← get uuid
  pure (history_body (env.uuid_text session.id) session.messages)

-- `ai_cost_today`.
unfoldable pub ai_cost_today : Env → M Body
ai_cost_today env = do
  date ← draw env.today
  today ← reads (λ w. rollup date w.cost)
  pure (cost_body today)

-- `tools.join(",")`.
unfoldable pub join_comma : List String → String
join_comma [] = ""
join_comma (t ∷ []) = t
join_comma (t ∷ u ∷ ts) = String.◌++◌ t (String.◌++◌ "," (join_comma (u ∷ ts)))

-- The consent request of `ai_open_trust_window`.
unfoldable pub window_request : Env → List String → ℕ → ConsentRequest
unfolding join_comma
window_request env tools duration_secs = key_request (
    String.◌++◌ "ai-trust://" (
      String.◌++◌ (join_comma tools)
        (String.◌++◌ "?" (String.◌++◌ (env.decimal duration_secs) "s"))))

unfoldable pub open_approved : Env → Uuid → List String → ℕ → M TrustWindow
open_approved env session_id tools duration_secs = do
  id ← draw env.random_uuid
  now ← draw env.unix_ms
  λ w.
      done (open_window id now session_id tools duration_secs w.windows).0
        (record w { windows = (open_window id now session_id tools duration_secs w.windows).1 })

-- `ai_open_trust_window`.
unfoldable pub ai_open_trust_window : Env → String → List String → ℕ → M Body
unfolding open_approved
ai_open_trust_window env session_id tools duration_secs = do
  uuid ← or_throw (env.parse_uuid session_id) bad_request
  session ← get uuid
  approved ← ask_ai env (window_request env tools duration_secs)
  guard approved ai_consent_denied
  win ← open_approved env uuid tools duration_secs
  pure (window_body win)
