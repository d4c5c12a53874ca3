-- ===== src/Server/Steps.antt =====
-- Which steps of launcher/xlpod-server keep the stored tokens and the audit log and only add to the
-- trace: all handlers of routes.rs but the handshake and the opening of a session.
use xlpod.Common.{
  ◌≡◌, refl, sym, ap, ◌∙◌, ◌⊎◌, inl, inr, Option, none, some, List, [], ◌∷◌, ◌++◌, text_eq, In,
  insert, lookup, In-of_lookup, nat_eq, arith,
}
use xlpod.Auth.{Result, ok, err}
use xlpod.Ai.Types.{Uuid, ChatMessage}
use xlpod.Ai.Session.{Session, SessionStore, append_messages}
use xlpod.System.{World, Event, M, lift, after}
use xlpod.Ai.Chat.Growth.{Longer, Longer-same, Longer-trans}
use xlpod.System.Logic.{Within, Stays}
use xlpod.System.Order.{Order, Blind, Follows}
use mathlib.Core.List.{append_assoc}

-- Every session of the new store has the scopes and roots of one of the old store.
abbrev pub Kept : SessionStore → SessionStore → Type 0
Kept old new =
    (p : Uuid × Session)
    → In p new
    → (q : Uuid × Session) × In q old
      × (p.1.granted_scopes ≡ q.1.granted_scopes)
      × (p.1.fs_roots ≡ q.1.fs_roots)

-- From `w` to `w'` the stored tokens and the audit log have not changed, no session has got more but
-- messages at the end of its transcript, and events have been added to the trace.
pub record Advances (w w' : World) : Type 0 where
  pub events : List Event
  pub trace : w'.trace ≡ events ++ w.trace
  pub tokens : w'.tokens ≡ w.tokens
  pub sessions : Kept w.sessions w'.sessions
  pub transcripts : Longer w.sessions w'.sessions
  pub audit : w'.audit ≡ w.audit

pub Kept-same : (new old : SessionStore) → new ≡ old → Kept old new
Kept-same new old e p m = (p, rw e at m, refl, refl)

pub Longer-equal : {new old : SessionStore} → new ≡ old → Longer old new
Longer-equal {old = old} e = rw e (Longer-same old)

-- A step that touches neither tokens nor sessions nor trace nor audit log.
pub quiet :
    {w w' : World}
    → w'.trace ≡ w.trace
    → w'.tokens ≡ w.tokens
    → w'.sessions ≡ w.sessions
    → w'.audit ≡ w.audit
    → Advances w w'
quiet t k e a = record {
  events = [];
  trace = t;
  tokens = k;
  sessions = Kept-same _ _ e;
  transcripts = Longer-equal e;
  audit = a;
}

pub Advances-trans : {u v w : World} → Advances u v → Advances v w → Advances u w
Advances-trans a b = record {
  events = b.events ++ a.events;
  trace = rw (b.trace, a.trace) (sym (append_assoc b.events a.events _));
  tokens = b.tokens ∙ a.tokens;
  audit = b.audit ∙ a.audit;
  transcripts = Longer-trans _ _ _ a.transcripts b.transcripts;
  sessions = λ p m.
      let (q, n, e, f) = b.sessions p m in
      let (r, o, g, h) = a.sessions q n in (r, o, e ∙ g, f ∙ h);
}

-- One event.
pub eventful :
    {w w' : World} (e : Event)
    → w'.trace ≡ e ∷ w.trace
    → w'.tokens ≡ w.tokens
    → w'.sessions ≡ w.sessions
    → w'.audit ≡ w.audit
    → Advances w w'
eventful e t k s a = record {
  events = e ∷ [];
  trace = t;
  tokens = k;
  sessions = Kept-same _ _ s;
  transcripts = Longer-equal s;
  audit = a;
}

instance abbrev pub Advances-Order : Order Advances
Advances-Order = record {
  trans = λ u v w a b. Advances-trans a b;
  unseen = λ w n. quiet refl refl refl refl;
}

instance abbrev pub Advances-Blind : Blind Advances
Advances-Blind = record { event = λ w e. eventful e refl refl refl refl }

pub Advances-Within : {P : Event → Type 0} {w w' : World} → Within P w w' → Advances w w'
Advances-Within h = record {
  events = h.events;
  trace = h.trace;
  tokens = h.tokens;
  audit = h.audit;
  sessions = Kept-same _ _ h.sessions;
  transcripts = Longer-equal h.sessions;
}

pub Follows-Stays : {P : Event → Type 0} {A : Type 0} {m : M A} → Stays P m → Follows Advances m
Follows-Stays h = record { run = λ w. Advances-Within (h.run w) }

-- Tokens, sessions, trace and audit log are as before.
abbrev pub IsQuiet : World → World → Type 0
IsQuiet w w' =
    (w'.trace ≡ w.trace)
    × (w'.tokens ≡ w.tokens)
    × (w'.sessions ≡ w.sessions)
    × (w'.audit ≡ w.audit)

-- A step that is known to leave them as they are.
pub Follows-quiet :
    {A : Type 0} (m : M A) → ((w : World) → IsQuiet w (after (m w))) → Follows Advances m
Follows-quiet m h = record { run = λ w. quiet (h w).0 (h w).1 (h w).2 (h w).3 }

-- A step that ends in a result over a state that it has advanced to.
pub Follows-lift_at :
    {A : Type 0} (r : World → Result A) (f : World → World)
    → ((w : World) → Advances w (f w))
    → Follows Advances (λ w. lift (r w) (f w))
Follows-lift_at r f h = record { run = λ w. go w (r w) }
  where
    go : {A : Type 0} (w : World) (x : Result A) → Advances w (after (lift x (f w)))
    go w (ok a) = h w
    go w (err e) = h w

pub In-insert :
    (k : Uuid) (v : Session) (m : SessionStore) (p : Uuid × Session)
    → In p (insert k v m)
    → (p ≡ (k, v)) ⊎ In p m
unfolding insert
In-insert k v [] p h = ground arith
In-insert k v ((j, u) ∷ m) p h = ground (arith, In-insert k v m p)

-- A longer transcript changes neither scopes nor roots.
pub Kept-append_messages :
    (id : Uuid) (new : List ChatMessage) (store : SessionStore)
    → Kept store (append_messages id new store).1
unfolding append_messages
Kept-append_messages id new store = go (lookup id store) refl
  where
    go : (o : Option Session) → lookup id store ≡ o → Kept store (append_messages id new store).1
    go none e = rw (append_messages, e) (Kept-same store store refl)
    go (some s) e =
        rw (append_messages, e)
          λ p m. elim (In-insert id _ store p m) [
            | inl f ↦ (
              (id, s),
              In-of_lookup id s store e,
              ap (λ q. q.1.granted_scopes) f,
              ap (λ q. q.1.fs_roots) f,
            )
            | inr n ↦ (p, n, refl, refl)
          ]
