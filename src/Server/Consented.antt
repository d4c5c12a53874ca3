-- ===== src/Server/Consented.antt =====
-- What stands behind a stored token of launcher/xlpod-server: the user's answer to a dialog.
use xlpod.Common.{
  ◌≡◌, ◌∙◌, ◌⊎◌, inl, inr, true, String, List, [], ◌∷◌, ◌++◌, In, All, text_eq, All-In, lookup,
  In-of_lookup, some,
}
use xlpod.Auth.{Scope, TokenRecord, scope_eq}
use xlpod.Consent.{ConsentRequest}
use xlpod.System.{World, Event, asked}
use xlpod.Middleware.{allowed_origins}
use xlpod.Ai.Types.{Uuid}
use xlpod.Ai.Session.{Session}
use xlpod.Server.Steps.{Advances, Kept}

-- The user has approved, in a dialog that named an allowed origin, exactly the token's scopes and
-- roots; or the token has no scope.
pub record Approval (trace : List Event) (rec : TokenRecord) : Type 0 where
  pub request : ConsentRequest
  pub answered : In (asked request true) trace
  pub scopes : request.scopes ≡ rec.scopes
  pub fs_roots : request.fs_roots ≡ rec.fs_roots
  pub origin : In request.origin allowed_origins

abbrev pub Consented : List Event → String × TokenRecord → Type 0
Consented trace (token, rec) = (rec.scopes ≡ []) ⊎ Approval trace rec

-- A session of the AI bridge stays within what the user has approved.
pub record Mandate (trace : List Event) (session : Session) : Type 0 where
  pub rec : TokenRecord
  pub approval : Approval trace rec
  pub scopes : (s : Scope) → In s session.granted_scopes → In s approval.request.scopes
  pub fs_roots : session.fs_roots ≡ approval.request.fs_roots

-- Each stored token is consented to, and each session has a mandate.
pub record Sound (w : World) : Type 0 where
  pub tokens : All (Consented w.trace) w.tokens
  pub sessions : (p : Uuid × Session) → In p w.sessions → Mandate w.trace p.1

In-later : {A : Type 0} (a : A) (new old : List A) → In a old → In a (new ++ old)
In-later a [] old m = m
In-later a (x ∷ new) old m = inr (In-later a new old m)

abbrev approval_later :
    (new old : List Event) (rec : TokenRecord) → Approval old rec → Approval (new ++ old) rec
approval_later new old rec a = record {
  request = a.request;
  answered = In-later _ new old a.answered;
  scopes = a.scopes;
  fs_roots = a.fs_roots;
  origin = a.origin;
}

Mandate-later : (new old : List Event) (s : Session) → Mandate old s → Mandate (new ++ old) s
Mandate-later new old s m = record {
  rec = m.rec;
  approval = approval_later new old m.rec m.approval;
  scopes = m.scopes;
  fs_roots = m.fs_roots;
}

pub All-later :
    (new old : List Event) (ps : List (String × TokenRecord))
    → All (Consented old) ps
    → All (Consented (new ++ old)) ps
All-later new old [] h = tt
All-later new old ((token, rec) ∷ ps) h = (
  elim h.0 [ inl e ↦ inl e | inr a ↦ inr (approval_later new old rec a) ],
  All-later new old ps h.1,
)

-- A mandate holds for every session with the same scopes and roots.
Mandate-same :
    (trace : List Event) (s t : Session)
    → s.granted_scopes ≡ t.granted_scopes
    → s.fs_roots ≡ t.fs_roots
    → Mandate trace t
    → Mandate trace s
Mandate-same trace s t e f m = record {
  rec = m.rec;
  approval = m.approval;
  scopes = λ x i. m.scopes x (rw e at i);
  fs_roots = f ∙ m.fs_roots;
}

-- Mandates after steps that give no session more.
pub Mandates-later :
    (w w' : World) (new : List Event)
    → w'.trace ≡ new ++ w.trace
    → Kept w.sessions w'.sessions
    → ((p : Uuid × Session) → In p w.sessions → Mandate w.trace p.1)
    → (p : Uuid × Session) → In p w'.sessions
    → Mandate w'.trace p.1
Mandates-later w w' new e k h p m =
    let (q, n, f, g) = k p m in
    rw e (Mandate-same (new ++ w.trace) p.1 q.1 f g (Mandate-later new w.trace q.1 (h q n)))

-- Consent is never lost by steps that keep the tokens and give no session more.
pub Sound-Advances : (w w' : World) → Advances w w' → Sound w → Sound w'
Sound-Advances w w' a h = record {
  tokens = rw (a.trace, a.tokens) (All-later a.events w.trace w.tokens h.tokens);
  sessions = Mandates-later w w' a.events a.trace a.sessions h.sessions;
}

-- A step that the soundness of the tokens survives.
pub record Preserves (w w' : World) : Type 0 where
  pub keep : Sound w → Sound w'

pub Preserves-trans : {u v w : World} → Preserves u v → Preserves v w → Preserves u w
Preserves-trans a b = record { keep = λ h. b.keep (a.keep h) }

pub Preserves-Advances : {w w' : World} → Advances w w' → Preserves w w'
Preserves-Advances {w} {w'} a = record { keep = Sound-Advances w w' a }

-- A token that is found in a sound store and has a scope was approved.
pub approval_of :
    (token : String) (rec : TokenRecord) (need : Scope) (w : World)
    → Sound w
    → lookup token w.tokens ≡ some rec
    → In need rec.scopes
    → (a : Approval w.trace rec) × In need a.request.scopes
approval_of token rec need w h found granted =
    elim (All-In (Consented w.trace) w.tokens (token, rec) h.tokens
      (In-of_lookup token rec w.tokens found)) [
        | inl e ↦ absurd (rw e at granted)
        | inr a ↦ (a, rw a.scopes granted)
      ]
