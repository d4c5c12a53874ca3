-- ===== src/Ai/Chat/Wrote.antt =====
-- Appending to the transcript of a session while others stay as they are, in
-- launcher/xlpod-server/src/ai/session.rs.
use xlpod.Common.{◌≡◌, refl, ◌∙◌, false, List, [], ◌++◌, nat_eq, text_eq, ◌==◌}
use xlpod.Auth.{ok}
use xlpod.Ai.Types.{Uuid, ChatMessage}
use xlpod.Ai.Session.{Session, get_session, append_messages}
use xlpod.Ai.Session.Transcript.{get_session-append_messages}
use xlpod.Ai.Chat.{append}
use xlpod.System.{World, done}
use xlpod.System.Order.{Order}
use mathlib.Core.List.{append_assoc, append-nil}

-- From `w` to `w'` the messages have been added at the end of the session's transcript, and no other
-- session has changed.
pub record Wrote (id : Uuid) (new : List ChatMessage) (w w' : World) : Type 0 where
  pub own :
      (s : Session)
      → get_session id w.sessions ≡ ok s
      → get_session id w'.sessions ≡ ok (record s { messages = s.messages ++ new })
  pub others : (j : Uuid) → (id == j) ≡ false → get_session j w'.sessions ≡ get_session j w.sessions

pub Wrote-same : (id : Uuid) (w w' : World) → w'.sessions ≡ w.sessions → Wrote id [] w w'
Wrote-same id w w' e = record {
  own = λ s h. rw (e, append-nil s.messages) h;
  others = λ j n. rw e refl;
}

pub Wrote-trans :
    {id : Uuid} {a b : List ChatMessage} {u v w : World}
    → Wrote id a u v
    → Wrote id b v w
    → Wrote id (a ++ b) u w
Wrote-trans {a} {b} f g = record {
  own = λ s h.
      rw (← append_assoc s.messages a b)
        (g.own (record s { messages = s.messages ++ a }) (f.own s h));
  others = λ j n. g.others j n ∙ f.others j n;
}

-- The session is stored.
abbrev pub Known : Uuid → World → Type 0
Known id w = (s : Session) × (get_session id w.sessions ≡ ok s)

pub Known-Wrote :
    {id : Uuid} {new : List ChatMessage} {w w' : World}
    → Known id w
    → Wrote id new w w'
    → Known id w'
Known-Wrote (s, e) f = (_, f.own s e)

-- Appending to a stored session.
pub append-Known :
    (id : Uuid) (new : List ChatMessage) (w : World)
    → Known id w
    → (v : World) × (append id new w ≡ done tt v) × Wrote id new w v
unfolding append
append-Known id new w (s, known) =
    let all = λ (j : Uuid). get_session-append_messages id j new w.sessions s known in
    (
      record w { sessions = (append_messages id new w.sessions).1 },
      rw ((all id).0) refl,
      record {
        own = λ t h.
            let same : t ≡ s = cc (h, known) in
            (all id).1 ∙ rw ((nat_eq.eq_iff id id).1 refl, same) refl;
        others = λ j n. (all j).1 ∙ rw n refl;
      },
    )

-- No session has changed.
pub record Silent (w w' : World) : Type 0 where
  pub sessions : w'.sessions ≡ w.sessions

instance abbrev pub Silent-Order : Order Silent
Silent-Order = record {
  trans = λ u v w a b. record { sessions = b.sessions ∙ a.sessions };
  unseen = λ w n. record { sessions = refl };
}
