-- ===== src/Ai/Session/Transcript.antt =====
-- The session store of launcher/xlpod-server/src/ai/session.rs as a map of growing transcripts.
use xlpod.Common.{ℕ, ◌≡◌, String, List, [], ◌++◌, lookup-insert, nat_eq, ◌==◌, if◌then◌else◌, arith}
use xlpod.Error.{ApiError}
use xlpod.Auth.{Scope, FilePath, ok, err}
use xlpod.Ai.Types.{Uuid, ChatMessage}
use xlpod.Ai.Session.{Session, SessionStore, open_session, get_session, append_messages}

-- A session that was just opened is found with the given provider, model, scopes and roots and an
-- empty transcript; every other session is found as before.
pub get_session-open_session :
    (id j : Uuid) (now : ℕ) (provider model bearer : String) (scopes : List Scope)
    (roots : List FilePath) (store : SessionStore)
    → get_session j (open_session id now provider model bearer scopes roots store).1 ≡ (
        if id == j
        then ok (record {
          id = id;
          provider = provider;
          model = model;
          internal_bearer = bearer;
          granted_scopes = scopes;
          fs_roots = roots;
          messages = [];
          opened_ms = now;
        })
        else get_session j store)
unfolding get_session open_session
get_session-open_session id j now provider model bearer scopes roots store = ground (
  arith,
  lookup-insert id j (open_session id now provider model bearer scopes roots store).0 store,
)

-- Appending to a known session succeeds: it adds the messages at the end of that session's
-- transcript and changes nothing else of it, and the other sessions stay as they are.
pub get_session-append_messages :
    (id j : Uuid) (new : List ChatMessage) (store : SessionStore) (s : Session)
    → get_session id store ≡ ok s
    → ((append_messages id new store).0 ≡ ok tt)
      × (get_session j (append_messages id new store).1 ≡ (
          if id == j then ok (record s { messages = s.messages ++ new }) else get_session j store))
unfolding get_session append_messages
get_session-append_messages id j new store s known =
    ground (arith, lookup-insert id j (record s { messages = s.messages ++ new }) store)

-- Appending to an unknown session fails and leaves the store as it is.
pub append_messages_unknown :
    (id : Uuid) (new : List ChatMessage) (store : SessionStore) (e : ApiError)
    → get_session id store ≡ err e
    → append_messages id new store ≡ (err e, store)
unfolding get_session append_messages
append_messages_unknown id new store e unknown = ground arith
