-- ===== src/Routes/Handshake/Grant.antt =====
-- What `/auth/handshake` of launcher/xlpod-server/src/routes.rs grants, and on whose word.
use xlpod.Common.{
  ℕ, suc, ◌≡◌, refl, ◌⊎◌, inl, inr, true, false, String, List, [], ◌∷◌, All, is_empty, map, arith,
  Bool-cases,
}
use xlpod.Error.{ApiError, bad_request}
use xlpod.Auth.{FilePath, issue, scope_eq}
use xlpod.System.{Env, World, asked, done, failed}
use xlpod.FsRead.Roots.{IsRoot, canonicalize_roots-KeptRoots}
use xlpod.Http.{Request, Body, handshake_body}
use xlpod.Routes.Handshake.{
  HandshakeRequest, wants_fs, grant_roots, handshake_request, approve_handshake, issue_token,
  handshake,
}

-- The roots that a handshake grants: none without a file scope, and with one at least one
-- directory among the given paths.
abbrev pub RootsFor : Env → HandshakeRequest → List FilePath → Type 0
RootsFor env body roots =
    ((wants_fs body.requested_scopes ≡ false) × (roots ≡ []))
    ⊎ ((wants_fs body.requested_scopes ≡ true)
        × (is_empty roots ≡ false)
        × All (IsRoot env body.fs_roots) roots)

record Rooted (env : Env) (body : HandshakeRequest) (w : World) : Type 0 where
  roots : List FilePath
  ticks : ℕ
  genuine : RootsFor env body roots
  result : grant_roots env body w ≡ done roots (record w { ticks = ticks })

record Rootless (env : Env) (body : HandshakeRequest) (w : World) : Type 0 where
  ticks : ℕ
  result : grant_roots env body w ≡ failed bad_request (record w { ticks = ticks })

grant_roots-cases :
    (env : Env) (body : HandshakeRequest) (w : World) → Rooted env body w ⊎ Rootless env body w
unfolding grant_roots
grant_roots-cases env body w = elim (Bool-cases (wants_fs body.requested_scopes)) [
  | inr e ↦ inl (record { roots = []; ticks = w.ticks; genuine = inl (e, refl); result = rw e })
  | inl e ↦
      let c = canonicalize_roots-KeptRoots env body.fs_roots w in
      elim (Bool-cases (is_empty c.roots)) [
        | inl none_left ↦ inr (record { ticks = c.ticks; result = rw (e, c.result, none_left) })
        | inr some_left ↦ inl (record {
          roots = c.roots;
          ticks = c.ticks;
          genuine = inr (e, some_left, c.genuine);
          result = rw (e, c.result, some_left);
        })
      ]
]

-- A token has been issued for exactly the requested scopes, after the user's yes to exactly these
-- scopes and roots, or with no dialog where no scope was requested.
pub record Granted (env : Env) (req : Request) (body : HandshakeRequest) (w : World) (b : Body)
    (w' : World) : Type 0 where
  pub roots : List FilePath
  pub genuine : RootsFor env body roots
  pub token : String
  pub now : ℕ
  pub approved :
      ((is_empty body.requested_scopes ≡ true) × (w'.trace ≡ w.trace))
      ⊎ ((is_empty body.requested_scopes ≡ false)
          × (w'.trace ≡ asked (handshake_request req body roots) true ∷ w.trace))
  pub tokens : w'.tokens ≡ (issue token now body.requested_scopes roots w.tokens).1
  pub answer : b ≡ handshake_body token body.requested_scopes (map env.display roots) 3600

module _ (env : Env) (req : Request) (body : HandshakeRequest) (w : World) (b : Body) (w' : World)
    (h : handshake env req body w ≡ done b w') where
  unasked : Rooted env body w → is_empty body.requested_scopes ≡ true → Granted env req body w b w'
  unfolding handshake approve_handshake issue_token
  unasked r e = record {
    roots = r.roots;
    genuine = r.genuine;
    token = env.random_token r.ticks;
    now = env.instant (suc r.ticks);
    approved = inl (e, ground (arith, r.result));
    tokens = ground (arith, r.result);
    answer = ground (arith, r.result);
  }

  approved_by_user :
      Rooted env body w → is_empty body.requested_scopes ≡ false → Granted env req body w b w'
  unfolding handshake approve_handshake issue_token
  approved_by_user r e = record {
    roots = r.roots;
    genuine = r.genuine;
    token = env.random_token (suc r.ticks);
    now = env.instant (suc (suc r.ticks));
    approved = inr (e, ground (arith, r.result));
    tokens = ground (arith, r.result);
    answer = ground (arith, r.result);
  }

  rootless : Rootless env body w → Granted env req body w b w'
  unfolding handshake approve_handshake issue_token
  rootless r = absurd (ground (arith, r.result))

-- A handshake that succeeds stores one token, for exactly the requested scopes and for roots that
-- are directories among the given paths (none without a file scope), after the user has approved
-- exactly these scopes and roots, or with no dialog where no scope is requested.
pub handshake-Granted :
    (env : Env) (req : Request) (body : HandshakeRequest) (w : World) (b : Body) (w' : World)
    → handshake env req body w ≡ done b w'
    → Granted env req body w b w'
handshake-Granted env req body w b w' h = elim (grant_roots-cases env body w) [
  | inl r ↦ elim (Bool-cases (is_empty body.requested_scopes)) [
    | inl e ↦ unasked env req body w b w' h r e
    | inr e ↦ approved_by_user env req body w b w' h r e
  ]
  | inr r ↦ rootless env req body w b w' h r
]

-- A handshake that fails leaves the stored tokens as they were.
pub handshake-tokens_failed :
    (env : Env) (req : Request) (body : HandshakeRequest) (w : World) (e : ApiError) (w' : World)
    → handshake env req body w ≡ failed e w'
    → w'.tokens ≡ w.tokens
unfolding handshake approve_handshake issue_token
handshake-tokens_failed env req body w e w' h = elim (grant_roots-cases env body w) [
  | inl r ↦ ground (arith, r.result)
  | inr r ↦ ground (arith, r.result)
]
