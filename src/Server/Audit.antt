-- ===== src/Server/Audit.antt =====
-- The audit log of launcher/xlpod-server/src/audit.rs over the life of the server.
use xlpod.Common.{
  ◌⊎◌, inl, inr, ◌+◌, ◌≡◌, refl, sym, ◌∙◌, Option, none, some, String, List, [], ◌∷◌, ◌++◌, text_eq,
}
use xlpod.System.{Env, World, AuditEntry, M}
use xlpod.System.Order.{Order, Follows, Follows-bind, Follows-pure}
use xlpod.Routes.Table.Mediation.{Turned, guarded}
use xlpod.Http.{Next, Request, Body, header_str, into_response}
use xlpod.Auth.{id_of}
use xlpod.Middleware.{bearer_token, or_else, check_limit, audit_wrap}
use xlpod.Server.Labels.{Named, Named-layers}
use xlpod.Routes.Handshake
use xlpod.Routes.Assistant
use xlpod.Routes.Table.{
  Call, Layer, host, origin, bearer, scope, layers, endpoint_of, handle, json, router, run_layers,
}
use xlpod.Server.Handlers.{IsOrdinary, Follows-handle}
use xlpod.Server.Granting.{Follows-handshake}
use xlpod.Server.Stack.{answered, Serves-run_layers, Follows-check_limit}
use xlpod.Server.History.{serve_all}
use mathlib.Core.List.{append_assoc, append-nil}

-- The audit log is as before.
pub record Unlogged (w w' : World) : Type 0 where
  pub audit : w'.audit ≡ w.audit

instance abbrev Unlogged-Order : Order Unlogged
Unlogged-Order = record {
  trans = λ u v w a b. record { audit = b.audit ∙ a.audit };
  unseen = λ w n. record { audit = refl };
}

module _ (env : Env) (launcher : String) where
  Unlogged-json : (m : M Body) → Follows Unlogged m → Follows Unlogged (json m)
  Unlogged-json m h = Follows-bind h λ b. Follows-pure _

  Unlogged-open :
      (provider model : Option String) (req : Request)
      → Follows Unlogged (handle env launcher (Call.ai_open_session provider model) req)
  unfolding handle Assistant.ai_open_session Assistant.open_one
  Unlogged-open provider model req = go req.token_record
    where
      go :
          (t : Option _)
          → Follows Unlogged (
              handle env launcher
                (Call.ai_open_session provider model)
                (record req { token_record = t }))
      go none = record { run = λ w. record { audit = refl } }
      go (some t) = record { run = λ w. record { audit = refl } }

  ordinary :
      (call : Call) (req : Request)
      → IsOrdinary call
      → Follows Unlogged (handle env launcher call req)
  ordinary call req i = record {
    run = λ w. record { audit = ((Follows-handle env launcher call req i).run w).audit };
  }

  Unlogged-handle : (call : Call) (req : Request) → Follows Unlogged (handle env launcher call req)
  unfolding handle
  Unlogged-handle (Call.handshake body) req =
      Unlogged-json (Handshake.handshake env req body)
        (record { run = λ w. record { audit = ((Follows-handshake env req body).run w).audit } })
  Unlogged-handle (Call.ai_open_session p m) req = Unlogged-open p m req
  Unlogged-handle Call.health req = ordinary Call.health req tt
  Unlogged-handle Call.launcher_version req = ordinary Call.launcher_version req tt
  Unlogged-handle Call.ws req = ordinary Call.ws req tt
  Unlogged-handle Call.excel_workbooks req = ordinary Call.excel_workbooks req tt
  Unlogged-handle (Call.fs_read path) req = ordinary (Call.fs_read path) req tt
  Unlogged-handle (Call.run_python code) req = ordinary (Call.run_python code) req tt
  Unlogged-handle (Call.bundle_read path) req = ordinary (Call.bundle_read path) req tt
  Unlogged-handle (Call.excel_range_read a b c) req = ordinary (Call.excel_range_read a b c) req tt
  Unlogged-handle (Call.bundle_write path load) req = ordinary (Call.bundle_write path load) req tt
  Unlogged-handle (Call.ai_chat body) req = ordinary (Call.ai_chat body) req tt
  Unlogged-handle (Call.ai_session_history id) req = ordinary (Call.ai_session_history id) req tt
  Unlogged-handle (Call.ai_delete_provider_key p) req =
      ordinary (Call.ai_delete_provider_key p) req tt
  Unlogged-handle (Call.ai_set_provider_key p k) req =
      ordinary (Call.ai_set_provider_key p k) req tt
  Unlogged-handle Call.ai_list_providers req = ordinary Call.ai_list_providers req tt
  Unlogged-handle Call.ai_list_tools req = ordinary Call.ai_list_tools req tt
  Unlogged-handle Call.ai_cost_today req = ordinary Call.ai_cost_today req tt
  Unlogged-handle (Call.ai_open_trust_window id tools secs) req =
      ordinary (Call.ai_open_trust_window id tools secs) req tt
  Unlogged-handle (Call.malformed e status) req = ordinary (Call.malformed e status) req tt

  Unlogged-check_limit : (key : String) (now : _) → Follows Unlogged (check_limit key now)
  Unlogged-check_limit key now = record {
    run = λ w. record { audit = ((Follows-check_limit key now).run w).audit };
  }

  -- An endpoint with all four layers: a guard has turned the request away, or the entry names the
  -- bearer's token by its id.
  unfoldable pub Labelled : Next → Request → World → AuditEntry → List Layer → Type 0
  Labelled next req w e (host ∷ origin ∷ bearer ∷ scope need ∷ []) =
      Turned env need req next w
        (run_layers env (host ∷ origin ∷ bearer ∷ scope need ∷ []) next req w)
      ⊎ ((token : String) × (bearer_token req ≡ some token) × (e.token_id ≡ some (id_of token)))
  Labelled next req w e _ = Unit

  abbrev pub handler : Call → Next
  handler call r v = into_response (handle env launcher call r v)

  labelled :
      (next : Next) (req : Request) (w : World) (e : AuditEntry) (ls : List Layer)
      → e.token_id ≡ or_else (run_layers env ls next req w).0.token_id req.token_id
      → Labelled next req w e ls
  unfolding Labelled
  labelled next req w e (host ∷ origin ∷ bearer ∷ scope need ∷ []) h =
      elim (guarded env need req next w) [
        | inl t ↦ inl t
        | inr p ↦ inr (p.token, p.authentic.presented, h ∙ rw p.response refl)
      ]
  labelled next req w e _ h = tt

  -- What the audit entry says of a request and its response.
  pub record Entry (call : Call) (req : Request) (w : World) (e : AuditEntry) : Type 0 where
    pub method : e.method ≡ req.method
    pub path : e.path ≡ req.path
    pub status : e.status ≡ (router env launcher call req w).0.status
    pub origin : e.origin ≡ header_str req.origin
    pub host : e.host ≡ header_str req.host
    pub bearer_named :
        Labelled (handler call) req (record w { ticks = w.ticks + 1 }) e (layers (endpoint_of call))
    pub identity :
        (e.token_id ≡ req.token_id)
        ⊎ ((token : String) × (bearer_token req ≡ some token) × (e.token_id ≡ some (id_of token)))

  behind : Call → Request → World → World
  behind call req w =
      (run_layers env (layers (endpoint_of call))
        (λ r v. into_response (handle env launcher call r v)) req
        (record w { ticks = w.ticks + 1 })).1

  Unlogged-behind : (call : Call) (req : Request) (w : World) → Unlogged w (behind call req w)
  unfolding behind
  Unlogged-behind call req w = record {
    audit =
        (Serves-run_layers env Unlogged-check_limit (layers (endpoint_of call))
          (λ r v. into_response (handle env launcher call r v))
          (λ r v. answered Unlogged (handle env launcher call r) (Unlogged-handle call r) v) req
          (record w { ticks = w.ticks + 1 })).audit;
  }

  identified :
      (req : Request) (label : Option String)
      → Named req label
      → (or_else label req.token_id ≡ req.token_id)
        ⊎ ((token : String) × (bearer_token req ≡ some token)
            × (or_else label req.token_id ≡ some (id_of token)))
  identified req label (inl e) = inl (rw e refl)
  identified req label (inr (token, b, e)) = inr (token, b, rw e refl)

  wrapped :
      (call : Call) (req : Request) (w : World)
      → (e : AuditEntry) × ((router env launcher call req w).1.audit
          ≡ (behind call req w).audit ++ e ∷ [])
        × Entry call req w e
  unfolding router audit_wrap behind
  wrapped call req w = (
    _,
    refl,
    record {
      method = refl;
      path = refl;
      status = refl;
      origin = refl;
      host = refl;
      bearer_named =
          labelled (handler call) req (record w { ticks = w.ticks + 1 }) _
            (layers (endpoint_of call)) refl;
      identity =
          identified req _ (Named-layers env launcher call req (record w { ticks = w.ticks + 1 }));
    },
  )

  logged :
      (call : Call) (req : Request) (w : World)
      → (e : AuditEntry) × ((router env launcher call req w).1.audit ≡ w.audit ++ e ∷ [])
        × Entry call req w e
  logged call req w =
      let (e, a, entry) = wrapped call req w in
      (e, rw (a, (Unlogged-behind call req w).audit) refl, entry)

  -- One entry for each request, in their order.
  unfoldable pub Recorded : List (Call × Request) → World → List AuditEntry → Type 0
  Recorded [] w es = es ≡ []
  Recorded ((call, req) ∷ more) w es =
      (e : AuditEntry) × (rest : List AuditEntry) × (es ≡ e ∷ rest)
      × Entry call req w e
      × Recorded more (router env launcher call req w).1 rest

  -- Whatever requests a server serves one after another, from whatever state, and whatever they are
  -- answered, the audit log grows at its end by exactly one entry for each request, in their order:
  -- with the request's method and path, the status of its response, and its headers Origin and Host.
  -- It names no token but the bearer token of the request, by `id_of`, its first eight characters, or
  -- what the request came labelled with; and it does name the bearer token in every request to an
  -- endpoint with the four layers that no guard has turned away. Every request here has a response:
  -- no handler panics.
  pub serve_all-Recorded :
      (past : List (Call × Request)) (w : World)
      → (es : List AuditEntry) × ((serve_all env launcher past w).audit ≡ w.audit ++ es)
        × Recorded past w es
  unfolding serve_all Recorded
  serve_all-Recorded [] w = ([], sym (append-nil w.audit), refl)
  serve_all-Recorded ((call, req) ∷ more) w =
      let (e, a, entry) = logged call req w in
      let (es, b, rest) = serve_all-Recorded more (router env launcher call req w).1 in
      (e ∷ es, rw (b, a) (append_assoc w.audit (e ∷ []) es), (e, es, refl, entry, rest))
