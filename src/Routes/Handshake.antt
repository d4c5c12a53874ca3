-- ===== src/Routes/Handshake.antt =====
-- launcher/xlpod-server/src/routes.rs, `/health`, `/auth/handshake` and `/launcher/version`.
pub mod Grant
use xlpod.Common.{
  ℕ, Bool, true, false, not, ◌||◌, ◌==◌, String, List, [], ◌∷◌, Option, none, some, any, is_empty,
  map, if◌then◌else◌,
}
use xlpod.Error.{ApiError, reserved_scope, bad_request, consent_denied}
use xlpod.Auth.{
  Scope, fs_read, fs_write, FilePath, TokenRecord, token_ttl_secs, is_reserved, issue, scope_eq,
}
use xlpod.Consent.{ConsentRequest}
use xlpod.System.{
  Env, World, Outcome, M, ◌>>=◌, ◌>>◌, pure, throw, guard, draw, ask, asked, emit, then_with, done,
  failed,
}
use xlpod.FsRead.{canonicalize_roots}
use xlpod.Http.{HeaderValue, Request, Body, health_body, handshake_body, version_body, header_str}

-- `bind::PROTO`; the version of the package is the build's.
abbrev pub proto : ℕ
proto = 1

-- `health` and `launcher_version`.
unfoldable pub health : String → M Body
health launcher = pure (health_body "ok" launcher proto)

unfoldable pub launcher_version : String → M Body
launcher_version launcher = pure (version_body launcher proto)

-- `struct HandshakeRequest`.
pub record HandshakeRequest : Type 0 where
  pub requested_scopes : List Scope
  pub fs_roots : List String

-- `wants_fs`.
abbrev pub wants_fs : List Scope → Bool
wants_fs scopes = any (λ s. s == fs_read || s == fs_write) scopes

-- `granted_roots`.
unfoldable pub grant_roots : Env → HandshakeRequest → M (List FilePath)
grant_roots env body =
    if wants_fs body.requested_scopes
    then (do
      canon ← canonicalize_roots env body.fs_roots
      guard (not (is_empty canon)) bad_request
      pure canon)
    else pure []

abbrev or_empty : Option String → String
or_empty none = ""
or_empty (some s) = s

-- The consent request of `handshake`.
abbrev pub handshake_request : Request → HandshakeRequest → List FilePath → ConsentRequest
handshake_request req body roots = record {
  origin = or_empty (header_str req.origin);
  scopes = body.requested_scopes;
  fs_roots = roots;
}

-- `if !body.requested_scopes.is_empty() { … }`.
unfoldable pub approve_handshake : Env → Request → HandshakeRequest → List FilePath → M (Unit {0})
approve_handshake env req body roots =
    if not (is_empty body.requested_scopes)
    then (do approved ← ask env (handshake_request req body roots); guard approved consent_denied)
    else pure tt

-- `state.tokens.issue(…)`.
unfoldable pub issue_token : Env → List Scope → List FilePath → M String
issue_token env scopes roots = do
  token ← draw env.random_token
  now ← draw env.instant
  λ w. done token (record w { tokens = (issue token now scopes roots w.tokens).1 })

-- `handshake`.
unfoldable pub handshake : Env → Request → HandshakeRequest → M Body
handshake env req body = do
  guard (not (any is_reserved body.requested_scopes)) reserved_scope
  granted_roots ← grant_roots env body
  approve_handshake env req body granted_roots
  token ← issue_token env body.requested_scopes granted_roots
  pure (handshake_body token body.requested_scopes (map env.display granted_roots) token_ttl_secs)
