-- ===== src/Ai/Session.antt =====
-- launcher/xlpod-server/src/ai/session.rs: the store of the conversations. The identifier of a new
-- session and the time, in milliseconds, are arguments.
pub mod Transcript
use xlpod.Common.{ℕ, String, List, [], ◌++◌, Option, none, some, lookup, insert, nat_eq}
use xlpod.Error.{ApiError, ai_session_not_found}
use xlpod.Auth.{Scope, FilePath, Result, ok, err}
use xlpod.Ai.Types.{Uuid, ChatMessage}

-- `struct Session`.
pub record Session : Type 0 where
  pub id : Uuid
  pub provider : String
  pub model : String
  pub internal_bearer : String
  pub granted_scopes : List Scope
  pub fs_roots : List FilePath
  pub messages : List ChatMessage
  pub opened_ms : ℕ

-- `struct SessionStore`.
abbrev pub SessionStore : Type 0
SessionStore = List (Uuid × Session)

-- `SessionStore::open`.
unfoldable pub open_session :
    Uuid
    → ℕ
    → String
    → String
    → String
    → List Scope
    → List FilePath
    → SessionStore
    → Session × SessionStore
open_session id now provider model internal_bearer granted_scopes fs_roots store =
    (session, insert id session store)
  where
    session : Session
    session = record {
      id = id;
      provider = provider;
      model = model;
      internal_bearer = internal_bearer;
      granted_scopes = granted_scopes;
      fs_roots = fs_roots;
      messages = [];
      opened_ms = now;
    }

-- `SessionStore::get`.
unfoldable pub get_session : Uuid → SessionStore → Result Session
get_session id store = elim (lookup id store) [ none ↦ err ai_session_not_found | some s ↦ ok s ]

-- `SessionStore::append_messages`.
unfoldable pub append_messages :
    Uuid → List ChatMessage → SessionStore → Result (Unit {0}) × SessionStore
append_messages id new store = elim (lookup id store) [
  | none ↦ (err ai_session_not_found, store)
  | some s ↦ (ok tt, insert id (record s { messages = s.messages ++ new }) store)
]
