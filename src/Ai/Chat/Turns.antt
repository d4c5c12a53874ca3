-- ===== src/Ai/Chat/Turns.antt =====
-- How often the chat loop of launcher/xlpod-server/src/routes.rs calls the provider.
use xlpod.Common.{
  ℕ, zero, suc, ◌≡◌, refl, ◌⊎◌, inl, inr, Bool, true, false, String, List, [], ◌∷◌, All, contains,
  is_empty, text_eq, arith, Bool-cases,
}
use xlpod.Auth.{Result, ok, err, Scope, fs_read, excel_com, ai_exec_python}
use xlpod.Json.{Value}
use xlpod.Ai.Types.{Uuid, ChatMessage, ChatRequest, Usage}
use xlpod.Ai.Session.{Session, get_session}
use xlpod.Ai.Cost.{over_budget}
use xlpod.Ai.Dispatch.{execute_tool_use}
use xlpod.Ai.Dispatch.Effects.{MayDo}
use xlpod.Ai.Dispatch.Acts.{MayAct, Stays-execute_tool_use}
use xlpod.Ai.Chat.{
  append, get, charge, provider_turn, ToolUse, tool_uses, run_tools, Final, hear, provider_step,
  turns, converse, max_turns, no_final, ai_chat,
}
use xlpod.System.{
  Env, World, Event, called_provider, asked, ai_asked, read_file, spawned, sent, killed,
  key_written, key_deleted, pure, after,
}
use xlpod.Ai.Chat.Calls.{calls, Calls, no_call, Makes, Makes-bind, Makes-then, Makes-mono, Makes-if}

-- No tool calls the provider.
not_called :
    (env : Env) (session : Session) (input : Value) (scope : Scope) (p : String)
    (h : List ChatMessage)
    → MayDo env session input scope (called_provider p h)
    → ⊥
not_called env session input fs_read p l h = h
not_called env session input excel_com p l (inl h) = h
not_called env session input excel_com p l (inr h) = h
not_called env session input ai_exec_python p l (code, given, h) = h
not_called env session input _ p l h = h

module _ (env : Env) (session : Session) where
  calls-MayAct :
      (plan_only : Bool) (es : List Event) → All (MayAct env session plan_only) es → calls es ≡ 0
  calls-MayAct plan_only [] h = refl
  calls-MayAct plan_only (e ∷ es) (h, hs) = one e h (calls-MayAct plan_only es hs)
    where
      one : (e : Event) → MayAct env session plan_only e → calls es ≡ 0 → calls (e ∷ es) ≡ 0
      one (called_provider p l) (inl h) rest = absurd h
      one (called_provider p l) (inr t) rest =
          absurd (not_called env session t.input t.spec.required_scope p l t.acted)
      one (asked r b) h rest = rest
      one (ai_asked r b) h rest = rest
      one (read_file p c) h rest = rest
      one (spawned p c) h rest = rest
      one (sent t) h rest = rest
      one killed h rest = rest
      one (key_written k v) h rest = rest
      one (key_deleted k) h rest = rest

  pub Makes-execute_tool_use :
      (plan_only : Bool) (id name : String) (input : Value)
      → Makes 0 (execute_tool_use env session plan_only id name input)
  Makes-execute_tool_use plan_only id name input = record {
    run = λ w.
        let acted = (Stays-execute_tool_use env session plan_only id name input).run w in
        record {
          events = acted.events;
          trace = acted.trace;
          few = omega (arith, calls-MayAct plan_only acted.events acted.allowed);
        };
  }

  Makes-pure : {A : Type 0} (a : A) → Makes 0 (pure a)
  Makes-pure a = record { run = λ w. no_call refl }

  Makes-run_tools :
      (plan_only : Bool) (us : List ToolUse) → Makes 0 (run_tools env session plan_only us)
  unfolding run_tools
  Makes-run_tools plan_only [] = Makes-pure []
  Makes-run_tools plan_only (u ∷ us) =
      Makes-bind 0 0 (omega arith) (Makes-execute_tool_use plan_only u.id u.name u.input) λ result.
        Makes-bind 0 0 (omega arith) (Makes-run_tools plan_only us)
          λ results. Makes-pure (result ∷ results)

  pub Makes-append : (id : Uuid) (new : List ChatMessage) → Makes 0 (append id new)
  unfolding append
  Makes-append id new = record { run = λ w. no_call (ground arith) }

  pub Makes-hear :
      (body : ChatRequest) (history : List ChatMessage) → Makes 1 (hear env session body history)
  unfolding hear append provider_turn
  Makes-hear body history = record {
    run = λ w. record {
      events = called_provider session.provider history ∷ [];
      trace = ground arith;
      few = omega arith;
    };
  }

  pub Makes-charge : (usage : Usage) → Makes 0 (charge env session usage)
  unfolding charge
  Makes-charge usage = record { run = λ w. no_call refl }

  Makes-provider_step :
      (body : ChatRequest) (history : List ChatMessage)
      → Makes 1 (provider_step env session body history)
  unfolding provider_step
  Makes-provider_step body history =
      Makes-bind 1 0 (omega arith) (Makes-hear body history)
        λ t. Makes-then (Makes-charge t.usage) (Makes-pure t)

  Makes-turns :
      (body : ChatRequest) (left : ℕ) (history : List ChatMessage) (fin : Final)
      → Makes left (turns env session body left history fin)
  unfolding turns
  Makes-turns body zero history fin = Makes-pure fin
  Makes-turns body (suc left) history fin =
      Makes-bind 1 left (omega arith) (Makes-provider_step body history) λ t.
        Makes-if (is_empty (tool_uses t.message.content)) (Makes-mono (omega arith) (Makes-pure _))
          (Makes-bind 0 left (omega arith)
            (Makes-run_tools body.plan_only (tool_uses t.message.content))
            λ results. Makes-then (Makes-append session.id _) (Makes-turns body left _ _))

-- What stands before the first call of the provider.
abbrev pub Admitted : Env → ChatRequest → World → Type 0
Admitted env body w =
    (over_budget w.cost ≡ false)
    × ((session : Session) × (get_session body.session_id w.sessions ≡ ok session)
        × (contains env.providers session.provider ≡ true))

module _ (env : Env) (body : ChatRequest) where
  Makes-get : (id : Uuid) → Makes 0 (get id)
  unfolding get
  Makes-get id = record { run = λ w. no_call (ground arith) }

  Makes-converse : (session : Session) → Makes max_turns (converse env body session)
  unfolding converse
  Makes-converse session = Makes-then (Makes-append env session session.id body.messages) (
      Makes-bind 0 max_turns (omega arith) (Makes-get session.id) λ current.
        Makes-bind max_turns 0 (omega arith)
          (Makes-turns env session body max_turns current.messages no_final)
          λ fin. Makes-pure env session _)

-- One request to `/ai/chat` calls the provider at most eight times, whatever the provider and the
-- tools answer, and does nothing outside at all unless the spending is below the budget, the
-- session is known and its provider is registered.
pub ai_chat-Calls :
    (env : Env) (body : ChatRequest) (w : World)
    → Calls max_turns w (after (ai_chat env body w))
      × (((after (ai_chat env body w)).trace ≡ w.trace) ⊎ Admitted env body w)
unfolding ai_chat get
ai_chat-Calls env body w = elim (Bool-cases (over_budget w.cost)) [
  | inl over ↦ rw (over, ai_chat) (no_call refl, inl refl)
  | inr under ↦ known under (get_session body.session_id w.sessions) refl
]
  where
    known :
        over_budget w.cost ≡ false
        → (r : Result Session) → get_session body.session_id w.sessions ≡ r
        → Calls max_turns w (after (ai_chat env body w))
          × (((after (ai_chat env body w)).trace ≡ w.trace) ⊎ Admitted env body w)
    known under (err x) e = rw (under, e, get, ai_chat) (no_call refl, inl refl)
    known under (ok session) e = elim (Bool-cases (contains env.providers session.provider)) [
      | inl listed ↦ (
        rw (under, e, listed, get, ai_chat) ((Makes-converse env body session).run w),
        inr (under, (session, e, listed)),
      )
      | inr missing ↦ rw (under, e, missing, get, ai_chat) (no_call refl, inl refl)
    ]
