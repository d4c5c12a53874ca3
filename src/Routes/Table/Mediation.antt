-- ===== src/Routes/Table/Mediation.antt =====
-- Complete mediation by the table of launcher/xlpod-server/src/routes.rs: behind which checks each
-- handler stands.
use xlpod.Common.{
  ◌+◌, ◌≡◌, refl, ◌∙◌, ◌⊎◌, inl, inr, true, String, some, [], ◌∷◌, ◌++◌, In, contains-In, arith,
  text_eq,
}
use xlpod.Error.{
  ApiError, host_not_allowed, origin_not_allowed, unauthorized, rate_limited, scope_denied,
}
use xlpod.Auth.{Scope, TokenRecord, id_of, scope_eq}
use xlpod.System.{Env, World, AuditEntry}
use xlpod.Http.{Request, Response, Next, header_str, into_response, error_response}
use xlpod.Middleware.{allowed_origins, audit_wrap}
use xlpod.Middleware.Guards.{
  among, host_guard_cases, origin_guard_cases, require_scope_cases, authorised, Authentic,
  Unauthentic, Passed, bearer_guard_cases,
}
use xlpod.Routes.Table.{
  host, origin, bearer, scope, layers, run_layer, run_layers, Call, endpoint_of, handle, router,
}

-- The errors with which a guard answers.
abbrev pub IsGuardError : ApiError → Type 0
IsGuardError e =
    (e ≡ host_not_allowed)
    ⊎ (e ≡ origin_not_allowed)
    ⊎ (e ≡ unauthorized)
    ⊎ (e ≡ rate_limited)
    ⊎ (e ≡ scope_denied)

module _ (env : Env) (need : Scope) (req : Request) (next : Next) (w : World) where
  -- A guard has answered with an error; nothing but the rate limiter has changed.
  pub record Turned (o : Response × World) : Type 0 where
    pub error : ApiError
    pub kind : IsGuardError error
    pub status : o.0.status ≡ (error_response error).status
    pub body : o.0.body ≡ (error_response error).body
    pub harmless : o.1 ≡ record w { ticks = o.1.ticks; limiter = o.1.limiter }

  -- What is behind the guards has run, once all of them were passed.
  pub record Reached (o : Response × World) : Type 0 where
    pub token : String
    pub rec : TokenRecord
    pub start : World
    pub host_allowed : among env.allowed_hosts (header_str req.host) ≡ true
    pub origin_allowed : among allowed_origins (header_str req.origin) ≡ true
    pub authentic : Authentic env req w token rec start
    pub granted : In need rec.scopes
    pub response :
        o.0 ≡ record (next (authorised req token rec) start).0 { token_id = some (id_of token) }
    pub world : o.1 ≡ (next (authorised req token rec) start).1

  behind : Next
  behind = run_layer env (scope need) next

  from_Passed :
      (o : Response × World)
      → among env.allowed_hosts (header_str req.host) ≡ true
      → among allowed_origins (header_str req.origin) ≡ true
      → Passed env req behind w o
      → Turned o ⊎ Reached o
  unfolding behind run_layer
  from_Passed o h g p =
      elim (require_scope_cases env (authorised req p.token p.rec) next p.start need p.rec refl) [
        | inl (lacking, e) ↦ inl (record {
          error = scope_denied;
          kind = ground arith;
          status = rw (p.answer, e);
          body = rw (p.answer, e);
          harmless = rw (p.answer, e) (rw p.authentic.effect);
        })
        | inr (held, e) ↦ inr (record {
          token = p.token;
          rec = p.rec;
          start = p.start;
          host_allowed = h;
          origin_allowed = g;
          authentic = p.authentic;
          granted = contains-In p.rec.scopes need held;
          response = rw (p.answer, e);
          world = rw (p.answer, e);
        })
      ]

  Turned-at :
      (e : ApiError)
      → IsGuardError e
      → (o : Response × World) → o ≡ (error_response e, w)
      → Turned o
  Turned-at e k o h = record { error = e; kind = k; status = rw h; body = rw h; harmless = rw h }

  unauthentic : (o : Response × World) → Unauthentic env req behind w o → Turned o
  unauthentic o u = record {
    error = u.error;
    kind = ground (arith, u.kind);
    status = rw u.answer;
    body = rw u.answer;
    harmless = rw u.answer u.harmless;
  }

  -- A request to a guarded endpoint is turned away by a guard, which changes nothing but the rate
  -- limiter, or it reaches what is behind the guards with an allowed host and origin, and with a
  -- token that is stored, has not expired, is under its rate limit and carries the needed scope.
  pub guarded :
      Turned (run_layers env (host ∷ origin ∷ bearer ∷ scope need ∷ []) next req w)
      ⊎ Reached (run_layers env (host ∷ origin ∷ bearer ∷ scope need ∷ []) next req w)
  unfolding run_layers run_layer behind
  guarded =
      elim (host_guard_cases env req (run_layers env (origin ∷ bearer ∷ scope need ∷ []) next) w) [
        | inl (h, e) ↦ inl (Turned-at host_not_allowed (inl refl) _ e)
        | inr (h, e) ↦
            elim (origin_guard_cases env req (run_layers env (bearer ∷ scope need ∷ []) next) w) [
              | inl (g, f) ↦ inl (Turned-at origin_not_allowed (inr (inl refl)) _ (e ∙ f))
              | inr (g, f) ↦ elim (bearer_guard_cases env req behind w) [
                | inl u ↦ inl (unauthentic _ (rw (e ∙ f) u))
                | inr p ↦ from_Passed _ h g (rw (e ∙ f) p)
              ]
            ]
      ]

-- The last audit entry that a request leaves.
abbrev pub Audited : Request → Response × World → World → Type 0
Audited req o w' =
    (entry : AuditEntry) × (w'.audit ≡ o.1.audit ++ entry ∷ [])
    × (entry.status ≡ o.0.status)
    × (entry.method ≡ req.method)
    × (entry.path ≡ req.path)

-- Every request to an endpoint with the four layers is turned away with the error of a guard,
-- which changes nothing but the rate limiter, or it reaches the handler with an allowed host and
-- origin and a token that is stored, has not expired, is under its rate limit and carries the
-- endpoint's scope. In both cases one audit entry with the request's method and path and the
-- response's status is appended.
pub router_guarded :
    (env : Env) (launcher : String) (call : Call) (need : Scope) (req : Request) (w : World)
    → layers (endpoint_of call) ≡ host ∷ origin ∷ bearer ∷ scope need ∷ []
    → let handler : Next = λ r v. into_response (handle env launcher call r v) in
      let start = record w { ticks = w.ticks + 1 } in
      let o = run_layers env (layers (endpoint_of call)) handler req start in
      (Turned env need req handler start o ⊎ Reached env need req handler start o)
      × ((router env launcher call req w).0 ≡ o.0)
      × Audited req o (router env launcher call req w).1
unfolding router audit_wrap
router_guarded env launcher call need req w table = (
  rw table (guarded env need req _ (record w { ticks = w.ticks + 1 })),
  refl,
  (_, refl, refl, refl, refl),
)
