-- ===== src/Server/Granting.antt =====
-- The handshake of launcher/xlpod-server/src/routes.rs stores no token without consent.
use xlpod.Common.{
  ◌≡◌, refl, sym, ◌∙◌, inl, inr, true, String, List, [], ◌∷◌, ◌++◌, In, All, is_empty, text_eq,
  All-insert, contains-In, Option, none, some, text_eq,
}
use xlpod.Auth.{Scope, FilePath, issue, scope_eq}
use xlpod.System.{Env, World, Event, asked, Outcome, done, failed, after}
use xlpod.System.Order.{Order, Blind, Follows, follows}
use xlpod.Http.{Request, Body, header_str}
use xlpod.Middleware.{allowed_origins}
use xlpod.Middleware.Guards.{among}
use xlpod.FsRead.{canonicalize_roots}
use xlpod.FsRead.Roots.{canonicalize_roots-KeptRoots}
use xlpod.Routes.Handshake.{
  HandshakeRequest, grant_roots, handshake_request, approve_handshake, issue_token, handshake,
}
use xlpod.Routes.Handshake.Grant.{handshake-Granted, Granted, handshake-tokens_failed}
use xlpod.Server.Consented.{Consented, All-later, Mandates-later, Preserves, Preserves-Advances}
use xlpod.Server.Steps.{Longer-equal, Kept-same}
use mathlib.Core.List.{append_assoc}

-- From `w` to `w'` the trace has grown, and the sessions are the same.
pub record Extends (w w' : World) : Type 0 where
  pub events : List Event
  pub trace : w'.trace ≡ events ++ w.trace
  pub sessions : w'.sessions ≡ w.sessions
  pub audit : w'.audit ≡ w.audit

Extends-trans : {u v w : World} → Extends u v → Extends v w → Extends u w
Extends-trans a b = record {
  events = b.events ++ a.events;
  trace = rw (b.trace, a.trace) (sym (append_assoc b.events a.events _));
  sessions = b.sessions ∙ a.sessions;
  audit = b.audit ∙ a.audit;
}

instance abbrev Extends-Order : Order Extends
Extends-Order = record {
  trans = λ u v w a b. Extends-trans a b;
  unseen = λ w n. record { events = []; trace = refl; sessions = refl; audit = refl };
}

instance abbrev Extends-Blind : Blind Extends
Extends-Blind = record {
  event = λ w e. record { events = e ∷ []; trace = refl; sessions = refl; audit = refl };
}

module _ (env : Env) where
  Follows-canonicalize_roots :
      (input : List String) → Follows Extends (canonicalize_roots env input)
  Follows-canonicalize_roots input = record {
    run = λ w.
        let k = canonicalize_roots-KeptRoots env input w in
        record {
          events = [];
          trace = rw k.result refl;
          sessions = rw k.result refl;
          audit = rw k.result refl;
        };
  }

  Follows-grant_roots : (body : HandshakeRequest) → Follows Extends (grant_roots env body)
  unfolding grant_roots
  Follows-grant_roots body = search (follows, Follows-canonicalize_roots) depth 9

  Follows-approve_handshake :
      (req : Request) (body : HandshakeRequest) (roots : List FilePath)
      → Follows Extends (approve_handshake env req body roots)
  unfolding approve_handshake
  Follows-approve_handshake req body roots = search follows depth 9

  Follows-issue_token :
      (scopes : List Scope) (roots : List FilePath) → Follows Extends (issue_token env scopes roots)
  unfolding issue_token
  Follows-issue_token scopes roots = record {
    run = λ w. record { events = []; trace = refl; sessions = refl; audit = refl };
  }

  pub Follows-handshake :
      (req : Request) (body : HandshakeRequest) → Follows Extends (handshake env req body)
  unfolding handshake
  Follows-handshake req body =
      search (follows, Follows-grant_roots, Follows-approve_handshake, Follows-issue_token) depth 14

  module _ (req : Request) (body : HandshakeRequest) (w : World)
      (allowed : among allowed_origins (header_str req.origin) ≡ true) where
    origin-In : In (handshake_request req body []).origin allowed_origins
    origin-In = go (header_str req.origin) allowed
      where
        go :
            (o : Option String)
            → among allowed_origins o ≡ true
            → In (elim o [ none ↦ "" | some s ↦ s ]) allowed_origins
        go none h = cc
        go (some s) h = contains-In allowed_origins s h

    granting :
        (b : Body) (w' : World)
        → Granted env req body w b w'
        → All (Consented w.trace) w.tokens
        → All (Consented w'.trace) w'.tokens
    unfolding issue
    granting b w' g h = elim g.approved [
      | inl (no_scope, t) ↦
          rw (g.tokens, t)
            (All-insert (Consented w.trace) g.token _ w.tokens h (inl (scopeless no_scope)))
      | inr (scoped, t) ↦
          rw (g.tokens, t)
            (All-insert (Consented (asked (handshake_request req body g.roots) true ∷ w.trace))
              g.token _ w.tokens
              (All-later (asked (handshake_request req body g.roots) true ∷ []) w.trace w.tokens h)
              (inr (record {
                request = handshake_request req body g.roots;
                answered = inl refl;
                scopes = refl;
                fs_roots = refl;
                origin = origin-In;
              })))
    ]
      where
        scopeless : is_empty body.requested_scopes ≡ true → body.requested_scopes ≡ []
        scopeless e = go body.requested_scopes e
          where
            go : (l : List Scope) → is_empty l ≡ true → l ≡ []
            go [] h = refl
            go (s ∷ l) h = cc

    -- A handshake from an allowed origin keeps every stored token consented to.
    pub Preserves-handshake : Preserves w (after (handshake env req body w))
    Preserves-handshake = go (handshake env req body w) refl
      where
        go : (o : Outcome Body) → handshake env req body w ≡ o → Preserves w (after o)
        go (done b w') e =
            let grown : Extends w w' = rw e at ((Follows-handshake req body).run w) in
            record {
              keep = λ h. record {
                tokens = granting b w' (handshake-Granted env req body w b w' e) h.tokens;
                sessions =
                    Mandates-later w w' grown.events grown.trace
                      (Kept-same w'.sessions w.sessions grown.sessions) h.sessions;
              };
            }
        go (failed x w') e =
            let grown : Extends w w' = rw e at ((Follows-handshake req body).run w) in
            Preserves-Advances (record {
              audit = grown.audit;
              events = grown.events;
              trace = grown.trace;
              tokens = handshake-tokens_failed env req body w x w' e;
              sessions = Kept-same w'.sessions w.sessions grown.sessions;
              transcripts = Longer-equal grown.sessions;
            })
