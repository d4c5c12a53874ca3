-- ===== src/Middleware/Guards.antt =====
-- What each guard of launcher/xlpod-server/src/middleware.rs lets through, and what it leaves alone.
use xlpod.Common.{
  ℕ, suc, ◌<◌, ◌≡◌, refl, ◌⊎◌, inl, inr, Bool, true, false, String, Option, none, some, List,
  contains, lookup, arith, Option-cases, text_eq,
}
use xlpod.Error.{
  ApiError, host_not_allowed, origin_not_allowed, unauthorized, rate_limited, scope_denied,
}
use xlpod.Auth.{Scope, TokenRecord, Result, ok, err, lookup_token, id_of, scope_eq}
use xlpod.Auth.Store.{lookup_token-ok_iff}
use xlpod.RateLimit.{check, admit}
use xlpod.System.{Env, World}
use xlpod.Http.{Request, Response, Next, header_str, into_response, error_response}
use xlpod.Middleware.{
  allowed_origins, host_guard, origin_guard, bearer_token, check_limit, bearer_guard, require_scope,
}

abbrev pub among : List String → Option String → Bool
among xs none = false
among xs (some x) = contains xs x

-- The request as the handler sees it.
abbrev pub authorised : Request → String → TokenRecord → Request
authorised req token rec = record req { token_id = some (id_of token); token_record = some rec }

-- A request whose bearer token is known, has not expired and is under its rate limit, and the world
-- after these checks.
pub record Authentic (env : Env) (req : Request) (w : World) (token : String) (rec : TokenRecord)
    (w' : World) : Type 0 where
  pub presented : bearer_token req ≡ some token
  pub stored : lookup token w.tokens ≡ some rec
  pub fresh : env.instant w.ticks < rec.expires
  pub limited : (check (id_of token) (env.instant (suc w.ticks)) w.limiter).0 ≡ ok tt
  pub effect : w' ≡ record w {
    ticks = suc (suc w.ticks);
    limiter = (check (id_of token) (env.instant (suc w.ticks)) w.limiter).1;
  }

module _ (env : Env) (req : Request) (next : Next) (w : World) where
  pub host_guard_cases :
      ((among env.allowed_hosts (header_str req.host) ≡ false)
        × (into_response (host_guard env req next w) ≡ (error_response host_not_allowed, w)))
      ⊎ ((among env.allowed_hosts (header_str req.host) ≡ true)
          × (into_response (host_guard env req next w) ≡ next req w))
  unfolding host_guard
  host_guard_cases = ground arith

  pub origin_guard_cases :
      ((among allowed_origins (header_str req.origin) ≡ false)
        × (into_response (origin_guard req next w) ≡ (error_response origin_not_allowed, w)))
      ⊎ ((among allowed_origins (header_str req.origin) ≡ true)
          × (into_response (origin_guard req next w) ≡ next req w))
  unfolding origin_guard
  origin_guard_cases = ground arith

  pub require_scope_cases :
      (need : Scope) (rec : TokenRecord)
      → req.token_record ≡ some rec
      → ((contains rec.scopes need ≡ false)
          × (into_response (require_scope need req next w) ≡ (error_response scope_denied, w)))
        ⊎ ((contains rec.scopes need ≡ true)
            × (into_response (require_scope need req next w) ≡ next req w))
  unfolding require_scope
  require_scope_cases need rec e = ground arith

  -- A request that the bearer guard answers itself.
  pub record Unauthentic (o : Response × World) : Type 0 where
    pub error : ApiError
    pub last : World
    pub kind : (error ≡ unauthorized) ⊎ (error ≡ rate_limited)
    pub answer : o ≡ (error_response error, last)
    pub harmless : last ≡ record w { ticks = last.ticks; limiter = last.limiter }

  pub record Passed (o : Response × World) : Type 0 where
    pub token : String
    pub rec : TokenRecord
    pub start : World
    pub authentic : Authentic env req w token rec start
    pub answer : o ≡ (
      record (next (authorised req token rec) start).0 { token_id = some (id_of token) },
      (next (authorised req token rec) start).1,
    )

  admit_error : (now : ℕ) (b : List ℕ) (e : ApiError) → (admit now b).0 ≡ err e → e ≡ rate_limited
  unfolding admit
  admit_error now b e h = ground arith

  check_error :
      (key : String) (now : ℕ) (e : ApiError)
      → (check key now w.limiter).0 ≡ err e
      → e ≡ rate_limited
  unfolding check
  check_error key now e h = admit_error now _ e h

  lookup_token_error :
      (token : String) (now : ℕ) (e : ApiError)
      → lookup_token token now w.tokens ≡ err e
      → e ≡ unauthorized
  unfolding lookup_token
  lookup_token_error token now e h = ground arith

  with_limit :
      (token : String) (rec : TokenRecord) (answer : Result (Unit {0}))
      → bearer_token req ≡ some token
      → lookup_token token (env.instant w.ticks) w.tokens ≡ ok rec
      → (check (id_of token) (env.instant (suc w.ticks)) w.limiter).0 ≡ answer
      → Unauthentic (into_response (bearer_guard env req next w))
        ⊎ Passed (into_response (bearer_guard env req next w))
  unfolding bearer_guard check_limit
  with_limit token rec (ok tt) presented found limited =
      let (stored, fresh) =
        (lookup_token-ok_iff token (env.instant w.ticks) w.tokens rec).0 found in
      inr (record {
        token = token;
        rec = rec;
        start = record w {
          ticks = suc (suc w.ticks);
          limiter = (check (id_of token) (env.instant (suc w.ticks)) w.limiter).1;
        };
        authentic = record {
          presented = presented;
          stored = stored;
          fresh = fresh;
          limited = limited;
          effect = refl;
        };
        answer = rw (presented, found, limited);
      })
  with_limit token rec (err e) presented found limited = inl (record {
    error = e;
    last = record w {
      ticks = suc (suc w.ticks);
      limiter = (check (id_of token) (env.instant (suc w.ticks)) w.limiter).1;
    };
    kind = inr (check_error (id_of token) (env.instant (suc w.ticks)) e limited);
    answer = ground arith;
    harmless = refl;
  })

  with_record :
      (token : String) (found : Result TokenRecord)
      → bearer_token req ≡ some token
      → lookup_token token (env.instant w.ticks) w.tokens ≡ found
      → Unauthentic (into_response (bearer_guard env req next w))
        ⊎ Passed (into_response (bearer_guard env req next w))
  unfolding bearer_guard
  with_record token (ok rec) presented e = with_limit token rec _ presented e refl
  with_record token (err x) presented e = inl (record {
    error = x;
    last = record w { ticks = suc w.ticks };
    kind = inl (lookup_token_error token (env.instant w.ticks) x e);
    answer = ground arith;
    harmless = refl;
  })

  -- The bearer guard answers 401 or 429 and changes at most the limiter, or it runs what is behind
  -- it for the record of a token that was presented, is stored, has not expired and is under its
  -- limit, and marks the response with the token's identifier.
  pub bearer_guard_cases :
      Unauthentic (into_response (bearer_guard env req next w))
      ⊎ Passed (into_response (bearer_guard env req next w))
  unfolding bearer_guard
  bearer_guard_cases = elim (Option-cases (bearer_token req)) [
    | inl absent ↦ inl (record {
      error = unauthorized;
      last = w;
      kind = inl refl;
      answer = rw absent;
      harmless = refl;
    })
    | inr (token, presented) ↦ with_record token _ presented refl
  ]
