-- ===== src/Ai/Chat/Growth.antt =====
-- Steps of the chat loop of launcher/xlpod-server/src/routes.rs that only let transcripts grow.
use xlpod.Common.{
  ℕ, ◌≡◌, refl, sym, ◌∙◌, All, All-append, ◌∷◌, inl, inr, List, [], ◌++◌, text_eq, nat_eq, ◌==◌,
  Bool-cases,
}
use xlpod.Auth.{Result, ok, err}
use xlpod.Ai.Types.{Uuid, ChatMessage}
use xlpod.Ai.Session.{Session, SessionStore, get_session, append_messages}
use xlpod.Ai.Session.Transcript.{get_session-append_messages, append_messages_unknown}
use xlpod.Ai.Chat.{append}
use xlpod.System.{World, Event, lift, after}
use xlpod.System.Logic.{Within, All-mono}
use xlpod.System.Order.{Order, Follows}
use mathlib.Core.List.{append_assoc, append-nil}

-- Every session is still there, and only its transcript has grown at its end.
abbrev pub Longer : SessionStore → SessionStore → Type 0
Longer old new =
    (j : Uuid) (s : Session)
    → get_session j old ≡ ok s
    → (more : List ChatMessage) × (get_session j new
        ≡ ok (record s { messages = s.messages ++ more }))

-- From `w` to `w'` transcripts have grown, tokens, windows, the limiter and the audit log have
-- not changed, and only events with the property have happened.
pub record Grows (P : Event → Type 0) (w w' : World) : Type 0 where
  pub events : List Event
  pub trace : w'.trace ≡ events ++ w.trace
  pub allowed : All P events
  pub tokens : w'.tokens ≡ w.tokens
  pub limiter : w'.limiter ≡ w.limiter
  pub audit : w'.audit ≡ w.audit
  pub windows : w'.windows ≡ w.windows
  pub sessions : Longer w.sessions w'.sessions

pub Longer-same : (store : SessionStore) → Longer store store
Longer-same store j s h = ([], rw (append-nil s.messages) h)

pub Longer-trans : (a b c : SessionStore) → Longer a b → Longer b c → Longer a c
Longer-trans a b c f g j s h =
    let (more, e) = f j s h in
    let (rest, d) = g j (record s { messages = s.messages ++ more }) e in
    (more ++ rest, rw (← append_assoc s.messages more rest) d)

pub Longer-append :
    (id : Uuid) (new : List ChatMessage) (store : SessionStore)
    → Longer store (append_messages id new store).1
Longer-append id new store = go (get_session id store) refl
  where
    go :
        (r : Result Session)
        → get_session id store ≡ r
        → Longer store (append_messages id new store).1
    go (err e) unknown = rw (append_messages_unknown id new store e unknown) (Longer-same store)
    go (ok t) known = λ j s h. elim (Bool-cases (id == j)) [
      | inl same ↦
          let at : id ≡ j = (nat_eq.eq_iff id j).0 same in
          let equal : t ≡ s = cc (at, known, h) in
          (new, (get_session-append_messages id j new store t known).1 ∙ rw (same, equal) refl)
      | inr other ↦ (
        [],
        (get_session-append_messages id j new store t known).1
            ∙ rw (other, append-nil s.messages) h,
      )
    ]

module _ {P : Event → Type 0} where
  -- Nothing has happened but that transcripts have grown.
  pub Grows-Longer :
      {w : World} (n : ℕ) (new : SessionStore)
      → Longer w.sessions new
      → Grows P w (record w { ticks = n; sessions = new })
  Grows-Longer n new h = record {
    events = [];
    trace = refl;
    allowed = tt;
    tokens = refl;
    limiter = refl;
    audit = refl;
    windows = refl;
    sessions = h;
  }

  pub Grows-Within : {w w' : World} → Within P w w' → Grows P w w'
  Grows-Within {w} h = record {
    events = h.events;
    trace = h.trace;
    allowed = h.allowed;
    tokens = h.tokens;
    limiter = h.limiter;
    audit = h.audit;
    windows = h.windows;
    sessions = rw h.sessions (Longer-same w.sessions);
  }

  pub Grows-trans : {u v w : World} → Grows P u v → Grows P v w → Grows P u w
  Grows-trans a b = record {
    events = b.events ++ a.events;
    trace = rw (b.trace, a.trace) (sym (append_assoc b.events a.events _));
    allowed = All-append P b.events a.events b.allowed a.allowed;
    tokens = b.tokens ∙ a.tokens;
    limiter = b.limiter ∙ a.limiter;
    audit = b.audit ∙ a.audit;
    windows = b.windows ∙ a.windows;
    sessions = Longer-trans _ _ _ a.sessions b.sessions;
  }

  pub Grows-event :
      (w : World) (n : ℕ) (e : Event)
      → P e
      → Grows P w (record w { ticks = n; trace = e ∷ w.trace })
  Grows-event w n e h = record {
    events = e ∷ [];
    trace = refl;
    allowed = (h, tt);
    tokens = refl;
    limiter = refl;
    audit = refl;
    windows = refl;
    sessions = Longer-same w.sessions;
  }

  instance abbrev pub Grows-Order : Order (Grows P)
  Grows-Order = record {
    trans = λ u v w a b. Grows-trans a b;
    unseen = λ w n. Grows-Longer n w.sessions (Longer-same w.sessions);
  }

  pub Follows-append : (id : Uuid) (new : List ChatMessage) → Follows (Grows P) (append id new)
  unfolding append
  Follows-append id new = record {
    run = λ w.
        go w (append_messages id new w.sessions).0
          (Grows-Longer w.ticks _ (Longer-append id new w.sessions));
  }
    where
      go :
          (w : World) (r : Result (Unit {0})) {v : World}
          → Grows P w v
          → Grows P w (after (lift r v))
      go w (ok u) h = h
      go w (err e) h = h

-- Fewer events are allowed by a stronger property.
pub Grows-mono :
    {P Q : Event → Type 0} {w w' : World} → ((e : Event) → P e → Q e) → Grows P w w' → Grows Q w w'
Grows-mono f h = record {
  events = h.events;
  trace = h.trace;
  allowed = All-mono h.events f h.allowed;
  tokens = h.tokens;
  limiter = h.limiter;
  audit = h.audit;
  windows = h.windows;
  sessions = h.sessions;
}
