-- ===== src/Server/Layers.antt =====
-- The layers of launcher/xlpod-server/src/middleware.rs around a handler, and the whole router.
use xlpod.Common.{
  suc, ◌+◌, ◌≡◌, refl, ap, ◌∙◌, inl, inr, true, String, [], ◌∷◌, text_eq, Option, some, In, lookup,
}
use xlpod.Auth.{ai_provider_call, TokenRecord}
use xlpod.System.{Env, World, Outcome, done, failed, after}
use xlpod.Http.{Request, Response, Next, header_str, into_response}
use xlpod.Middleware.{allowed_origins, audit_wrap}
use xlpod.Middleware.Guards.{authorised, among, host_guard_cases, origin_guard_cases}
use xlpod.Routes.Handshake
use xlpod.Routes.Handshake.{HandshakeRequest}
use xlpod.Routes.Table.{
  host, origin, bearer, scope, layers, run_layer, run_layers, Call, endpoint_of, handle, router,
  json,
}
use xlpod.Ai.Session.{open_session}
use xlpod.Worker.{unwrap_or}
use xlpod.Routes.Assistant
use xlpod.Routes.Assistant.{session_scopes}
use xlpod.Routes.Assistant.Scopes.{session_scopes_iff}
use xlpod.Routes.Table.Mediation.{guarded}
use xlpod.Server.Steps.{Advances, quiet, In-insert, Advances-Order, Advances-Blind}
use xlpod.Server.Stack.{answered, Serves-run_layers, Follows-check_limit}
use xlpod.Server.Handlers.{IsOrdinary, Follows-handle}
use xlpod.Server.Consented.{
  Approval, Mandate, Preserves, Preserves-trans, Preserves-Advances, approval_of,
}
use xlpod.Server.Granting.{Preserves-handshake}

module _ (env : Env) where
  module _ (launcher : String) (req : Request) where
    behind : Call → Next
    behind call r v = into_response (handle env launcher call r v)

    ordinary :
        (call : Call) (w : World)
        → IsOrdinary call
        → Preserves w (run_layers env (layers (endpoint_of call)) (behind call) req w).1
    unfolding behind
    ordinary call w i = Preserves-Advances (
        Serves-run_layers env Follows-check_limit (layers (endpoint_of call)) (behind call)
          (λ r v.
            answered Advances (handle env launcher call r) (Follows-handle env launcher call r i) v)
          req w)

    after_json :
        {w : World} (o : Outcome Response) → Preserves w (after o) → Preserves w (into_response o).1
    after_json (done r v) h = h
    after_json (failed e v) h = h

    unchanged : (w : World) → Preserves w w
    unchanged w = Preserves-Advances (quiet refl refl refl refl)

    shaken :
        (body : HandshakeRequest) (w : World)
        → among allowed_origins (header_str req.origin) ≡ true
        → Preserves w (behind (Call.handshake body) req w).1
    unfolding behind handle
    shaken body w allowed =
        go (Handshake.handshake env req body w) (Preserves-handshake env req body w allowed)
      where
        go :
            (o : Outcome _)
            → Preserves w (after o)
            → Preserves w (into_response (json (λ v. o) w)).1
        go (done b v) h = h
        go (failed e v) h = h

    handshaken :
        (body : HandshakeRequest) (w : World)
        → Preserves w (run_layers env (host ∷ origin ∷ []) (behind (Call.handshake body)) req w).1
    unfolding run_layers run_layer
    handshaken body w =
        elim (host_guard_cases env req (run_layers env (origin ∷ []) (behind (Call.handshake body)))
          w) [
            | inl (h, e) ↦ rw e (unchanged w)
            | inr (h, e) ↦ elim (origin_guard_cases env req (behind (Call.handshake body)) w) [
              | inl (g, f) ↦ rw (e ∙ f) (unchanged w)
              | inr (g, f) ↦ rw (e ∙ f) (shaken body w g)
            ]
          ]

    -- A session that is opened for a token which has a scope has a mandate by the token's approval.
    opened :
        (token : String) (rec : TokenRecord) (provider model : Option String) (w : World)
        → lookup token w.tokens ≡ some rec
        → In ai_provider_call rec.scopes
        → Preserves w (behind (Call.ai_open_session provider model) (authorised req token rec) w).1
    unfolding behind handle Assistant.ai_open_session Assistant.open_one open_session
    opened token rec provider model w stored granted = record {
      keep = λ h. record {
        tokens = h.tokens;
        sessions = λ p m. elim (In-insert _ _ w.sessions p m) [
          | inl e ↦ rw e (mandate (approval_of token rec ai_provider_call w h stored granted))
          | inr n ↦ h.sessions p n
        ];
      };
    }
      where
        mandate :
            (a : Approval w.trace rec) × In ai_provider_call a.request.scopes
            → Mandate w.trace
                (open_session
                  (env.random_uuid w.ticks)
                  (env.unix_ms (suc w.ticks))
                  (unwrap_or provider "anthropic")
                  (unwrap_or model Assistant.default_model)
                  "internal"
                  (session_scopes env.json rec.scopes)
                  rec.fs_roots
                  w.sessions).0
        mandate (a, i) = record {
          rec = rec;
          approval = a;
          scopes = λ s m. rw a.scopes (((session_scopes_iff env.json rec.scopes s).0 m).0);
          fs_roots = rw a.fs_roots refl;
        }

    opening :
        (provider model : Option String) (w : World)
        → Preserves w
            (run_layers env
              (host ∷ origin ∷ bearer ∷ scope ai_provider_call ∷ [])
              (behind (Call.ai_open_session provider model))
              req
              w).1
    opening provider model w =
        elim (guarded env ai_provider_call req (behind (Call.ai_open_session provider model)) w) [
          | inl t ↦ Preserves-Advances (
              quiet (ap (λ u. u.trace) t.harmless) (ap (λ u. u.tokens) t.harmless)
                (ap (λ u. u.sessions) t.harmless) (ap (λ u. u.audit) t.harmless))
          | inr r ↦
              let e = r.authentic.effect in
              let checked : Preserves w r.start = Preserves-Advances (
                quiet (ap (λ u. u.trace) e) (ap (λ u. u.tokens) e) (ap (λ u. u.sessions) e)
                  (ap (λ u. u.audit) e)) in
              let stored : lookup r.token r.start.tokens ≡ some r.rec =
                ap (λ u. lookup r.token u.tokens) e ∙ r.authentic.stored in
              rw r.world (
                Preserves-trans checked
                  (opened r.token r.rec provider model r.start stored r.granted))
        ]

    layered :
        (call : Call) (w : World)
        → Preserves w (run_layers env (layers (endpoint_of call)) (behind call) req w).1
    unfolding layers endpoint_of
    layered (Call.handshake body) w = handshaken body w
    layered Call.health w = ordinary Call.health w tt
    layered Call.launcher_version w = ordinary Call.launcher_version w tt
    layered Call.ws w = ordinary Call.ws w tt
    layered Call.excel_workbooks w = ordinary Call.excel_workbooks w tt
    layered (Call.fs_read path) w = ordinary (Call.fs_read path) w tt
    layered (Call.run_python code) w = ordinary (Call.run_python code) w tt
    layered (Call.bundle_read path) w = ordinary (Call.bundle_read path) w tt
    layered (Call.excel_range_read a b c) w = ordinary (Call.excel_range_read a b c) w tt
    layered (Call.bundle_write path payload) w = ordinary (Call.bundle_write path payload) w tt
    layered (Call.ai_chat body) w = ordinary (Call.ai_chat body) w tt
    layered (Call.ai_open_session p m) w = opening p m w
    layered (Call.ai_session_history id) w = ordinary (Call.ai_session_history id) w tt
    layered (Call.ai_delete_provider_key p) w = ordinary (Call.ai_delete_provider_key p) w tt
    layered (Call.ai_set_provider_key p k) w = ordinary (Call.ai_set_provider_key p k) w tt
    layered Call.ai_list_providers w = ordinary Call.ai_list_providers w tt
    layered Call.ai_list_tools w = ordinary Call.ai_list_tools w tt
    layered Call.ai_cost_today w = ordinary Call.ai_cost_today w tt
    layered (Call.ai_open_trust_window id tools secs) w =
        ordinary (Call.ai_open_trust_window id tools secs) w tt
    layered (Call.malformed e status) w = ordinary (Call.malformed e status) w tt

    -- Whatever the request, tokens stay consented to, and sessions keep their mandates.
    pub Preserves-router :
        (call : Call) (w : World) → Preserves w (router env launcher call req w).1
    unfolding router audit_wrap behind
    Preserves-router call w = Preserves-trans (Preserves-Advances (quiet refl refl refl refl)) (
        Preserves-trans (layered call (record w { ticks = w.ticks + 1 }))
          (record { keep = λ h. record { tokens = h.tokens; sessions = h.sessions } }))
