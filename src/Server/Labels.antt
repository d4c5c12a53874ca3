-- ===== src/Server/Labels.antt =====
-- The token that launcher/xlpod-server/src/middleware.rs names in a response, for the audit log.
use xlpod.Common.{
  ◌≡◌, refl, ◌⊎◌, inl, inr, String, List, [], ◌∷◌, Option, none, some, contains, text_eq,
}
use xlpod.Error.{ApiError, host_not_allowed, origin_not_allowed, unauthorized, scope_denied}
use xlpod.Auth.{scope_eq, id_of, lookup_token, TokenRecord}
use xlpod.System.{
  Env, World, Outcome, M, done, failed, then_with, ◌>>=◌, ◌>>◌, pure, guard, or_throw, lift, draw,
  reads,
}
use xlpod.Http.{header_str, error_response, Request, Response, Body, Next, run_next, into_response}
use xlpod.Middleware.{
  allowed_origins, host_guard, origin_guard, bearer_token, bearer_guard, require_scope, check_limit,
}
use xlpod.Routes.Table.{
  Layer, host, origin, bearer, scope, run_layer, run_layers, layers, endpoint_of, Call, handle,
  json, with_token,
}

-- No token is named, or by its first eight characters the token that the request bears.
abbrev pub Named : Request → Option String → Type 0
Named req label =
    (label ≡ none)
    ⊎ ((token : String) × (bearer_token req ≡ some token) × (label ≡ some (id_of token)))

-- A response, if there is one, has the property.
abbrev Gave : (Response → Type 0) → Outcome Response → Type 0
Gave Q (done r w) = Q r
Gave Q (failed e w) = Unit

-- Wherever it starts, a step that succeeds gives a response with the property.
record Gives (Q : Response → Type 0) (m : M Response) : Type 0 where
  run : (w : World) → Gave Q (m w)

Gave-then :
    {Q : Response → Type 0} {A : Type 0} {f : A → M Response} (o : Outcome A)
    → ((a : A) → Gives Q (f a))
    → Gave Q (then_with f o)
Gave-then (done a v) h = (h a).run v
Gave-then (failed e v) h = tt

Gives-bind :
    {Q : Response → Type 0} {A : Type 0} (m : M A) {f : A → M Response}
    → ((a : A) → Gives Q (f a))
    → Gives Q (m >>= f)
Gives-bind m h = record { run = λ w. Gave-then (m w) h }

Gives-then :
    {Q : Response → Type 0} (m : M (Unit {0})) {k : M Response} → Gives Q k → Gives Q (m >> k)
Gives-then m h = record { run = λ w. Gave-then (m w) (λ _. h) }

Gives-or_throw :
    {Q : Response → Type 0} {A : Type 0} (o : Option A) (e : ApiError) {f : A → M Response}
    → ((a : A) → o ≡ some a → Gives Q (f a))
    → Gives Q (or_throw o e >>= f)
Gives-or_throw none e h = record { run = λ w. tt }
Gives-or_throw (some a) e h = record { run = λ w. (h a refl).run w }

Gives-pure : {Q : Response → Type 0} (r : Response) → Q r → Gives Q (pure r)
Gives-pure r q = record { run = λ w. q }

-- What is behind a layer names nobody but the bearer.
Names : Next → Type 0
Names next = (req : Request) (w : World) → Named req (next req w).0.token_id

module _ (env : Env) where
  told :
      (req : Request) (m : M Response)
      → Gives (λ r. Named req r.token_id) m
      → (w : World) → Named req (into_response (m w)).0.token_id
  unfolding error_response
  told req m h w = go (m w) (h.run w)
    where
      go :
          (o : Outcome Response)
          → Gave (λ r. Named req r.token_id) o
          → Named req (into_response o).0.token_id
      go (done r v) q = q
      go (failed e v) q = inl refl

  Gives-run_next :
      (req : Request) (next : Next)
      → Names next
      → Gives (λ r. Named req r.token_id) (run_next next req)
  unfolding Names
  Gives-run_next req next h = record { run = λ w. h req w }

  -- Behind the guard for the bearer, the token is the request's.
  Gives-bearer_guard :
      (req : Request) (next : Next) → Gives (λ r. Named req r.token_id) (bearer_guard env req next)
  unfolding bearer_guard
  Gives-bearer_guard req next = Gives-or_throw (bearer_token req) unauthorized λ token e.
      Gives-bind (draw env.instant) λ now.
        Gives-bind (reads (λ w. lookup_token token now w.tokens)) λ found.
          Gives-bind (lift found) λ rec. Gives-bind (draw env.instant) λ later.
            Gives-then (check_limit (id_of token) later) (
              Gives-bind
                (run_next next
                  (record req { token_id = some (id_of token); token_record = some rec }))
                λ response.
                  Gives-pure (record response { token_id = some (id_of token) })
                    (inr (token, e, refl)))

  Names-run_layer : (l : Layer) (next : Next) → Names next → Names (run_layer env l next)
  unfolding Names run_layer host_guard origin_guard require_scope
  Names-run_layer host next h req w =
      told req (host_guard env req next)
        (Gives-bind (or_throw (header_str req.host) host_not_allowed) λ host.
          Gives-then (guard (contains env.allowed_hosts host) host_not_allowed)
            (Gives-run_next req next h))
        w
  Names-run_layer origin next h req w =
      told req (origin_guard req next)
        (Gives-bind (or_throw (header_str req.origin) origin_not_allowed) λ origin.
          Gives-then (guard (contains allowed_origins origin) origin_not_allowed)
            (Gives-run_next req next h))
        w
  Names-run_layer bearer next h req w =
      told req (bearer_guard env req next) (Gives-bearer_guard req next) w
  Names-run_layer (scope need) next h req w =
      told req (require_scope need req next)
        (Gives-bind (or_throw req.token_record unauthorized) λ rec.
          Gives-then (guard (contains rec.scopes need) scope_denied) (Gives-run_next req next h))
        w

  Names-run_layers : (ls : List Layer) (next : Next) → Names next → Names (run_layers env ls next)
  unfolding run_layers
  Names-run_layers [] next h = h
  Names-run_layers (l ∷ ls) next h =
      Names-run_layer l (run_layers env ls next) (Names-run_layers ls next h)

  module _ (launcher : String) where
    Gives-json : (req : Request) (m : M Body) → Gives (λ r. Named req r.token_id) (json m)
    Gives-json req m = Gives-bind m λ b. Gives-pure _ (inl refl)

    Gives-with_token :
        (req : Request) (f : TokenRecord → M Response)
        → ((t : TokenRecord) → Gives (λ r. Named req r.token_id) (f t))
        → Gives (λ r. Named req r.token_id) (with_token req f)
    Gives-with_token req f h = go req.token_record
      where
        go :
            (t : Option TokenRecord)
            → Gives (λ r. Named req r.token_id) (with_token (record req { token_record = t }) f)
        go none = Gives-pure _ (inl refl)
        go (some t) = h t

    Gives-handle :
        (call : Call) (req : Request)
        → Gives (λ r. Named req r.token_id) (handle env launcher call req)
    unfolding handle
    Gives-handle Call.health req = Gives-json req _
    Gives-handle Call.launcher_version req = Gives-json req _
    Gives-handle Call.ws req = Gives-with_token req _ λ t. Gives-pure _ (inl refl)
    Gives-handle Call.excel_workbooks req = Gives-json req _
    Gives-handle (Call.handshake body) req = Gives-json req _
    Gives-handle (Call.fs_read path) req = Gives-with_token req _ λ t. Gives-json req _
    Gives-handle (Call.run_python code) req = Gives-json req _
    Gives-handle (Call.bundle_read path) req = Gives-with_token req _ λ t. Gives-json req _
    Gives-handle (Call.excel_range_read a b c) req = Gives-json req _
    Gives-handle (Call.bundle_write path load) req = Gives-with_token req _ λ t. Gives-json req _
    Gives-handle (Call.ai_chat body) req = Gives-json req _
    Gives-handle (Call.ai_open_session p m) req = Gives-with_token req _ λ t. Gives-json req _
    Gives-handle (Call.ai_session_history id) req = Gives-json req _
    Gives-handle (Call.ai_delete_provider_key p) req = Gives-json req _
    Gives-handle (Call.ai_set_provider_key p k) req = Gives-json req _
    Gives-handle Call.ai_list_providers req = Gives-json req _
    Gives-handle Call.ai_list_tools req = Gives-json req _
    Gives-handle Call.ai_cost_today req = Gives-json req _
    Gives-handle (Call.ai_open_trust_window id tools secs) req = Gives-json req _
    Gives-handle (Call.malformed e status) req = Gives-pure _ (inl refl)

    Names-handle : (call : Call) → Names (λ req w. into_response (handle env launcher call req w))
    unfolding Names
    Names-handle call req w = told req (handle env launcher call req) (Gives-handle call req) w

    -- The response behind the layers names nobody but the bearer of the request.
    pub Named-layers :
        (call : Call) (req : Request) (w : World)
        → Named req
            (run_layers env
              (layers (endpoint_of call))
              (λ req w. into_response (handle env launcher call req w))
              req
              w).0.token_id
    unfolding Names
    Named-layers call = Names-run_layers (layers (endpoint_of call)) _ (Names-handle call)
