-- ===== src/Routes/Assistant/Opening.antt =====
-- What `/ai/session` and `/ai/consent/window` of launcher/xlpod-server/src/routes.rs open.
use Prim.Native.String
use Prim.Native.String.{[] as empty, ◌∷◌ as chr}
use xlpod.Common.{
  [], ap, ℕ, suc, ◌≡◌, refl, ◌⊎◌, inl, inr, ◌↔◌, true, false, String, Option, some, List, ◌∷◌, In,
  map, arith, Bool-cases, Option-cases, lookup-insert_self, nat_eq,
}
use xlpod.Auth.{Scope, TokenRecord, Result, ok, err}
use xlpod.Ai.Types.{Uuid}
use xlpod.Ai.Tools.{builtin_tools}
use xlpod.Ai.Session.{Session, open_session, get_session}
use xlpod.Ai.TrustWindow.{open_window}
use xlpod.Ai.Chat.{get}
use xlpod.System.{Env, World, ai_asked, after, done}
use xlpod.Http.{session_body}
use xlpod.Consent.{ConsentRequest}
use xlpod.Worker.{unwrap_or}
use xlpod.Routes.Assistant.{
  open_one, session_scopes, ai_open_session, join_comma, window_request, open_approved,
  ai_open_trust_window,
}
use xlpod.Routes.Assistant.Scopes.{session_scopes_iff}

-- A session that was opened for a token, and is stored.
pub record Opened (env : Env) (token : TokenRecord) (provider model : Option String) (w : World)
    : Type 0 where
  pub session : Session
  pub last : World
  pub result :
      ai_open_session env token provider model w
      ≡ done
          (session_body
            (env.uuid_text session.id)
            session.provider
            session.model
            session.granted_scopes
            session.opened_ms)
          last
  pub stored : get_session session.id last.sessions ≡ ok session
  pub provided : session.provider ≡ unwrap_or provider "anthropic"
  pub roots : session.fs_roots ≡ token.fs_roots
  pub scopes :
      (s : Scope)
      → In s session.granted_scopes
        ↔ (In s token.scopes × In s (map (λ t. t.required_scope) (builtin_tools env.json)))
  pub silent : last.trace ≡ w.trace

-- Opening a session always succeeds and stores the session that it answers with, whose roots are
-- the token's and whose scopes are those of the token that some tool requires; it does nothing
-- outside.
pub ai_open_session-Opened :
    (env : Env) (token : TokenRecord) (provider model : Option String) (w : World)
    → Opened env token provider model w
unfolding ai_open_session open_one open_session get_session
ai_open_session-Opened env token provider model w = record {
  session =
      (open_session (env.random_uuid w.ticks) (env.unix_ms (suc w.ticks))
        (unwrap_or provider "anthropic") (unwrap_or model _) "internal"
        (session_scopes env.json token.scopes) token.fs_roots w.sessions).0;
  last = after (ai_open_session env token provider model w);
  result = refl;
  stored = simp (lookup-insert_self, get_session);
  provided = refl;
  roots = refl;
  scopes = session_scopes_iff env.json token.scopes;
  silent = refl;
}

-- The tools, with a comma between two of them.
abbrev pub tool_list : List String → String
tool_list [] = ""
tool_list (t ∷ []) = t
tool_list (t ∷ u ∷ ts) = String.◌++◌ t (String.◌++◌ "," (tool_list (u ∷ ts)))

-- The dialog for a window: it names every tool, in order, and the duration that was asked for.
abbrev pub dialog_for : Env → List String → ℕ → ConsentRequest
dialog_for env tools duration_secs = record {
  origin = String.◌++◌ "ai-trust://" (
      String.◌++◌ (tool_list tools)
        (String.◌++◌ "?" (String.◌++◌ (env.decimal duration_secs) "s")));
  scopes = [];
  fs_roots = [];
}

join_comma-eq : (tools : List String) → join_comma tools ≡ tool_list tools
unfolding join_comma
join_comma-eq [] = refl
join_comma-eq (t ∷ []) = refl
join_comma-eq (t ∷ u ∷ ts) = ap (λ s. String.◌++◌ t (String.◌++◌ "," s)) (join_comma-eq (u ∷ ts))

window_request-eq :
    (env : Env) (tools : List String) (duration_secs : ℕ)
    → window_request env tools duration_secs ≡ dialog_for env tools duration_secs
unfolding window_request
window_request-eq env tools duration_secs = rw (join_comma-eq tools) refl

-- A window that was opened for a session that exists, after the user approved the request.
pub record WindowOpened (env : Env) (session_id : String) (tools : List String) (duration_secs : ℕ)
    (req : ConsentRequest) (w w' : World) : Type 0 where
  pub uuid : Uuid
  pub parsed : env.parse_uuid session_id ≡ some uuid
  pub session : Session
  pub known : get_session uuid w.sessions ≡ ok session
  pub asked : w'.trace ≡ ai_asked req true ∷ w.trace
  pub id : Uuid
  pub now : ℕ
  pub opened : w'.windows ≡ (open_window id now uuid tools duration_secs w.windows).1

requested :
    (env : Env) (session_id : String) (tools : List String) (duration_secs : ℕ) (w : World)
    → let last = after (ai_open_trust_window env session_id tools duration_secs w) in
      ((last.windows ≡ w.windows)
        × ((last.trace ≡ w.trace)
            ⊎ (last.trace ≡ ai_asked (window_request env tools duration_secs) false ∷ w.trace)))
      ⊎ WindowOpened env session_id tools duration_secs
          (window_request env tools duration_secs)
          w
          last
unfolding ai_open_trust_window open_approved get
requested env session_id tools duration_secs w = elim (Option-cases (env.parse_uuid session_id)) [
  | inl bad ↦ inl (ground arith)
  | inr (uuid, parsed) ↦ known uuid parsed (get_session uuid w.sessions) refl
]
  where
    known :
        (uuid : Uuid)
        → env.parse_uuid session_id ≡ some uuid
        → (r : Result Session) → get_session uuid w.sessions ≡ r
        → let last = after (ai_open_trust_window env session_id tools duration_secs w) in
          ((last.windows ≡ w.windows)
            × ((last.trace ≡ w.trace)
                ⊎ (last.trace ≡ ai_asked (window_request env tools duration_secs) false ∷ w.trace)))
          ⊎ WindowOpened env session_id tools duration_secs
              (window_request env tools duration_secs)
              w
              last
    known uuid parsed (err e) missing = inl (ground arith)
    known uuid parsed (ok session) found =
        elim (Bool-cases (env.ai_consent w.ticks (window_request env tools duration_secs))) [
          | inl said ↦ inr (record {
            uuid = uuid;
            parsed = parsed;
            session = session;
            known = found;
            asked = ground arith;
            id = env.random_uuid (suc w.ticks);
            now = env.unix_ms (suc (suc w.ticks));
            opened = ground arith;
          })
          | inr refused ↦ inl (ground arith)
        ]

-- A request for a trust window leaves the windows as they are, with at most one dialog, answered
-- no; or the session exists, the user has approved a dialog whose text
-- names every one of these tools, in order, and this duration, and the one change of the windows is the opening of the window for them.
pub ai_open_trust_window-WindowOpened :
    (env : Env) (session_id : String) (tools : List String) (duration_secs : ℕ) (w : World)
    → let last = after (ai_open_trust_window env session_id tools duration_secs w) in
      ((last.windows ≡ w.windows)
        × ((last.trace ≡ w.trace)
            ⊎ (last.trace ≡ ai_asked (dialog_for env tools duration_secs) false ∷ w.trace)))
      ⊎ WindowOpened env session_id tools duration_secs (dialog_for env tools duration_secs) w last
ai_open_trust_window-WindowOpened env session_id tools duration_secs w =
    rw (← window_request-eq env tools duration_secs)
      (requested env session_id tools duration_secs w)
