-- ===== src/Ai/Chat/Stores.antt =====
-- What a chat of launcher/xlpod-server/src/routes.rs does outside, and to the stores of the launcher.
use xlpod.Common.{
  ◌≡◌, refl, ◌⊎◌, inl, inr, Bool, false, String, [], Bool-cases, contains, text_eq, nat_eq,
}
use xlpod.Json.{Value}
use xlpod.Auth.{Result, ok, err}
use xlpod.Ai.Types.{ChatRequest, Usage}
use xlpod.Ai.Session.{Session, get_session}
use xlpod.Ai.Cost.{over_budget}
use xlpod.Ai.Dispatch.{execute_tool_use}
use xlpod.Ai.Dispatch.Acts.{MayAct, Stays-execute_tool_use}
use xlpod.Ai.Chat.{get, charge, converse, ai_chat}
use xlpod.Ai.Chat.Following.{Allows, Follows-converse}
use xlpod.Ai.Chat.Growth.{
  Grows, Longer-same, Grows-Within, Grows-event, Grows-Order, Grows-mono, Follows-append,
}
use xlpod.System.{Env, World, Event, called_provider, after}
use xlpod.System.Logic.{Within-mono}
use xlpod.System.Order.{Follows, same}

-- A call of the session's provider.
abbrev pub IsCall : Session → Event → Type 0
IsCall session (called_provider provider history) = provider ≡ session.provider
IsCall session _ = ⊥

-- What a chat of the session may do outside.
abbrev pub MayChat : Env → Session → Bool → Event → Type 0
MayChat env session plan_only e = IsCall session e ⊎ MayAct env session plan_only e

module _ (env : Env) (session : Session) (body : ChatRequest) where
  abbrev May : Event → Type 0
  May = MayChat env session body.plan_only

  Follows-execute_tool_use :
      (id name : String) (input : Value)
      → Follows (Grows May) (execute_tool_use env session body.plan_only id name input)
  Follows-execute_tool_use id name input = record {
    run = λ w. Grows-Within (
        Within-mono (λ e h. inr h)
          ((Stays-execute_tool_use env session body.plan_only id name input).run w));
  }

  Follows-charge : (usage : Usage) → Follows (Grows May) (charge env session usage)
  unfolding charge
  Follows-charge usage = record {
    run = λ w. record {
      events = [];
      trace = refl;
      allowed = tt;
      tokens = refl;
      limiter = refl;
      audit = refl;
      windows = refl;
      sessions = Longer-same w.sessions;
    };
  }

  -- The parts of a chat.
  pub Allows-Grows : Allows (Grows (MayChat env session body.plan_only)) env session body
  Allows-Grows = record {
    calls = λ history. record {
      run = λ w. Grows-event w w.ticks (called_provider session.provider history) (inl refl);
    };
    appends = Follows-append session.id;
    charges = Follows-charge;
    acts = Follows-execute_tool_use;
  }

  Follows-conversation : Follows (Grows May) (converse env body session)
  Follows-conversation = Follows-converse env session body Allows-Grows

-- What a request to `/ai/chat` may do outside: what a chat of the stored session may do.
abbrev pub MayServe : Env → ChatRequest → World → Event → Type 0
MayServe env body w e =
    (session : Session) × (get_session body.session_id w.sessions ≡ ok session)
    × MayChat env session body.plan_only e

-- However a chat goes, also where its provider fails, all that it does outside is to call the provider of its session, to show
-- dialogs, and what its tools do: tools that are known, whose scope the session was granted, that
-- in plan mode do not mutate, and that, by their scope, read files under the session's roots, send the
-- worker the Excel requests of their input, or the code of their input. It changes no token, no
-- trust window, no bucket of the rate limiter and no audit entry, and every session that was stored
-- is stored after it, with nothing changed but that its transcript may have grown at its end.
pub ai_chat-Grows :
    (env : Env) (body : ChatRequest) (w : World)
    → Grows (MayServe env body w) w (after (ai_chat env body w))
unfolding ai_chat get
ai_chat-Grows env body w = elim (Bool-cases (over_budget w.cost)) [
  | inl over ↦ rw (over, ai_chat) (same (Grows (MayServe env body w)) w)
  | inr under ↦ known under (get_session body.session_id w.sessions) refl
]
  where
    known :
        over_budget w.cost ≡ false
        → (r : Result Session) → get_session body.session_id w.sessions ≡ r
        → Grows (MayServe env body w) w (after (ai_chat env body w))
    known under (err x) e = rw (under, e, get, ai_chat) (same (Grows (MayServe env body w)) w)
    known under (ok session) e = elim (Bool-cases (contains env.providers session.provider)) [
      | inl listed ↦
          rw (under, e, listed, get, ai_chat)
            (Grows-mono (λ a h. (session, e, h)) ((Follows-conversation env session body).run w))
      | inr missing ↦ rw (under, e, missing, get, ai_chat) (same (Grows (MayServe env body w)) w)
    ]
