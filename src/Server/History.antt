-- ===== src/Server/History.antt =====
-- The life of the server of launcher/xlpod-server/src/lib.rs: requests that are served one after
-- another from its start, and what they can have brought about.
use xlpod.Common.{ℕ, ◌+◌, ◌<◌, ◌≡◌, ◌⊎◌, inl, inr, String, List, [], ◌∷◌, ◌++◌, In, All, text_eq}
use xlpod.Auth.{Scope, TokenRecord, fs_read}
use xlpod.System.{Env, World, Event}
use xlpod.FsRead.Safety.{IsReadUnder}
use xlpod.Http.{Request, Response, Next, into_response}
use xlpod.Routes.Table.{
  host, origin, bearer, scope, layers, run_layers, Call, endpoint_of, handle, router,
}
use xlpod.Routes.Table.Mediation.{Turned, Reached, router_guarded}
use xlpod.Routes.Table.Served.{fs_read-Served}
use xlpod.Server.Start.{fresh}
use xlpod.Server.Consented.{Approval, Sound, approval_of}
use xlpod.Server.Layers.{Preserves-router}

-- The state after requests that were served one after another.
unfoldable pub serve_all : Env → String → List (Call × Request) → World → World
serve_all env launcher [] w = w
serve_all env launcher ((call, req) ∷ more) w =
    serve_all env launcher more (router env launcher call req w).1

-- The state of a server that has served the requests.
abbrev pub served : Env → String → ℕ → List (Call × Request) → World
served env launcher budget past = serve_all env launcher past (fresh budget)

Sound-serve_all :
    (env : Env) (launcher : String) (past : List (Call × Request)) (w : World)
    → Sound w
    → Sound (serve_all env launcher past w)
unfolding serve_all
Sound-serve_all env launcher [] w h = h
Sound-serve_all env launcher ((call, req) ∷ more) w h =
    Sound-serve_all env launcher more _ ((Preserves-router env launcher req call w).keep h)

-- However many requests of whatever kind a server has served, every token that it has stored
-- either has no scope, or the user has approved, in a dialog that named an allowed origin, exactly
-- the token's scopes and roots; and every session of the AI bridge has only scopes, and exactly the
-- roots, that the user has approved in such a dialog.
pub served-Sound :
    (env : Env) (launcher : String) (budget : ℕ) (past : List (Call × Request))
    → Sound (served env launcher budget past)
unfolding fresh
served-Sound env launcher budget past =
    Sound-serve_all env launcher past (fresh budget)
      (record { tokens = tt; sessions = λ p m. absurd m })

module _ (env : Env) (launcher : String) (budget : ℕ) (past : List (Call × Request))
    (req : Request) where
  -- The state that the next request meets.
  abbrev pub present : World
  present = served env launcher budget past

  -- A request that has reached its handler with the user's approval for the needed scope.
  pub record Authorised (need : Scope) (handler : Next) (o : Response × World) : Type 0 where
    pub reached : Reached env need req handler (record present { ticks = present.ticks + 1 }) o
    pub approval : Approval present.trace reached.rec
    pub covers_need : In need approval.request.scopes
    pub fresh_token : env.instant (present.ticks + 1) < reached.rec.expires

  -- Whatever requests a server has served since its start, the next request to an endpoint with the
  -- four layers is turned away with the error of a guard, which changes nothing but the rate limiter,
  -- or it reaches its handler from an allowed host and origin, with a token that has not expired and
  -- for which the user has approved, in a dialog that named an allowed origin, exactly the
  -- token's scopes and roots, the endpoint's scope among them.
  pub served-Authorised :
      (call : Call) (need : Scope)
      → layers (endpoint_of call) ≡ host ∷ origin ∷ bearer ∷ scope need ∷ []
      → let handler : Next = λ r v. into_response (handle env launcher call r v) in
        let start = record present { ticks = present.ticks + 1 } in
        let o = run_layers env (layers (endpoint_of call)) handler req start in
        ((router env launcher call req present).0 ≡ o.0)
        × (Turned env need req handler start o ⊎ Authorised need handler o)
  served-Authorised call need table =
      let m = router_guarded env launcher call need req present table in
      (
        m.1,
        elim m.0 [
          | inl t ↦ inl t
          | inr r ↦
              let (a, n) =
                approval_of r.token r.rec need present (served-Sound env launcher budget past)
                  r.authentic.stored r.granted in
              inr (record {
                reached = r;
                approval = a;
                covers_need = n;
                fresh_token = r.authentic.fresh;
              })
        ],
      )

  -- A read of files that the user has allowed.
  pub record Allowed (last : World) : Type 0 where
    pub rec : TokenRecord
    pub approval : Approval present.trace rec
    pub for_reading : In fs_read approval.request.scopes
    pub events : List Event
    pub trace : last.trace ≡ events ++ present.trace
    pub reads : All (IsReadUnder approval.request.fs_roots) events

  -- Whatever requests a server has served since its start, the next request for a file does nothing
  -- outside, or all it does outside is to read files under roots that the user has approved, in a
  -- dialog that named these roots, an allowed origin and the scope for reading files.
  pub served-Allowed :
      (path : String)
      → let last = (router env launcher (Call.fs_read path) req present).1 in
        (last.trace ≡ present.trace) ⊎ Allowed last
  served-Allowed path = elim (fs_read-Served env launcher path req present) [
    | inl e ↦ inl e
    | inr s ↦
        let (a, n) =
          approval_of s.token s.rec fs_read present (served-Sound env launcher budget past) s.stored
            s.granted in
        inr (record {
          rec = s.rec;
          approval = a;
          for_reading = n;
          events = s.events;
          trace = s.trace;
          reads = rw a.fs_roots s.reads;
        })
  ]
