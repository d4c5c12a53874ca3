-- ===== src/Ai/Chat/Rounds/Loop.antt =====
-- launcher/xlpod-server/src/routes.rs, `ai_chat`: the messages that the loop adds, turn by turn.
use xlpod.Common.{
  ℕ, zero, suc, ◌≡◌, refl, inl, inr, true, false, List, [], ◌∷◌, ◌++◌, Option, none, some,
  Bool-cases, is_empty, if◌then◌else◌, nat_eq, text_eq,
}
use xlpod.Ai.Types.{ContentBlock, tool, ChatMessage, ChatRequest}
use xlpod.Ai.Session.{Session}
use xlpod.Ai.Tools.{builtin_tools}
use xlpod.Ai.Dispatch.Acts.{Stays-execute_tool_use}
use xlpod.Ai.Chat.{
  append, charge, provider_turn, ToolUse, tool_uses, run_tools, Final, message_of, hear,
  provider_step, turns,
}
use xlpod.Ai.Chat.Following.{Follows-run_tools}
use xlpod.Ai.Chat.Results.{AnswersAll, run_tools-Answered}
use xlpod.System.{
  Env, World, ProviderTurn, called_provider, unconfigured, upstream, decode, ◌>>◌, ◌>>=◌, pure,
  ProviderError, TurnResult, turn, turn_failed, Outcome, M, done, failed, then_with, after,
}
use xlpod.System.Order.{Follows}
use xlpod.Ai.Chat.Wrote.{
  Wrote, Wrote-same, Wrote-trans, Known, Known-Wrote, append-Known, Silent, Silent-Order,
}

-- The messages that a chat with so many turns left and this history adds, and the message that it
-- answers with, if it succeeds: the provider's answers to the history so far, where they call tools,
-- each followed by a message with one result for each call in their order; then its answer without
-- calls, or its failure, or the end of the turns. `reply` is the provider, asked at some time.
pub data Rounds (reply : ℕ → List ChatMessage → TurnResult) (spare : ChatMessage)
    : ℕ → List ChatMessage → List ChatMessage → Option ChatMessage → Type 0 where
  exhausted : {history : List ChatMessage} → Rounds reply spare zero history [] (some spare)
  broken :
      {left : ℕ} {history : List ChatMessage} (n : ℕ) (e : ProviderError)
      → reply n history ≡ turn_failed e
      → Rounds reply spare (suc left) history [] none
  final :
      {left : ℕ} {history : List ChatMessage} (n : ℕ) (t : ProviderTurn)
      → reply n history ≡ turn t
      → is_empty (tool_uses t.message.content) ≡ true
      → Rounds reply spare (suc left) history (t.message ∷ []) (some t.message)
  round :
      {left : ℕ} {history more : List ChatMessage} {last : Option ChatMessage} (n : ℕ)
      (t : ProviderTurn) (results : List ContentBlock)
      → reply n history ≡ turn t
      → is_empty (tool_uses t.message.content) ≡ false
      → AnswersAll (tool_uses t.message.content) results
      → Rounds reply spare left
          ((history ++ t.message ∷ []) ++ message_of tool results ∷ [])
          more
          last
      → Rounds reply spare (suc left) history (t.message ∷ message_of tool results ∷ more) last

-- The provider of a session, as a chat asks it.
abbrev pub reply_of : Env → Session → ChatRequest → ℕ → List ChatMessage → TurnResult
reply_of env session body n history =
    env.chat n session.provider history (builtin_tools env.json) body.max_tokens

-- The message that a run of the loop answers with.
abbrev pub told : Outcome Final → Option ChatMessage
told (done f w) = some f.message
told (failed e w) = none

module _ (env : Env) (session : Session) (body : ChatRequest) where
  tools-Silent : (us : List ToolUse) → Follows Silent (run_tools env session body.plan_only us)
  tools-Silent = Follows-run_tools env session body.plan_only λ i name input. record {
    run = λ w. record {
      sessions = ((Stays-execute_tool_use env session body.plan_only i name input).run w).sessions;
    };
  }

  abbrev reply : ℕ → List ChatMessage → TurnResult
  reply = reply_of env session body

  -- One call of the provider: it fails and adds nothing, or adds its answer.
  abbrev pub Heard : List ChatMessage → World → Outcome ProviderTurn → Type 0
  Heard history w (failed x v) =
      (v.sessions ≡ w.sessions)
      × ((n : ℕ) × (e : ProviderError) × (reply_of env session body n history ≡ turn_failed e))
  Heard history w (done t v) =
      Wrote session.id (t.message ∷ []) w v
      × ((n : ℕ) × (reply_of env session body n history ≡ turn t))

  pub hear-Heard :
      (history : List ChatMessage) (w : World)
      → Known session.id w
      → Heard history w (hear env session body history w)
  unfolding hear provider_turn
  hear-Heard history w known = go (reply w.ticks history) refl
    where
      start : World
      start = record w {
        ticks = suc w.ticks;
        trace = called_provider session.provider history ∷ w.trace;
      }

      go :
          (r : TurnResult)
          → reply w.ticks history ≡ r
          → Heard history w (
              then_with (λ t. append session.id (t.message ∷ []) >> pure t) (provider_turn r start))
      go (turn t) asked =
          let (v, e, wrote) = append-Known session.id (t.message ∷ []) start known in
          rw e (record { own = wrote.own; others = wrote.others }, (w.ticks, asked))
      go (turn_failed unconfigured) asked = (refl, (w.ticks, _, asked))
      go (turn_failed (upstream s)) asked = (refl, (w.ticks, _, asked))
      go (turn_failed (decode s)) asked = (refl, (w.ticks, _, asked))

  provider_step-Heard :
      (history : List ChatMessage) (w : World)
      → Known session.id w
      → Heard history w (provider_step env session body history w)
  unfolding provider_step charge
  provider_step-Heard history w known =
      go (hear env session body history w) (hear-Heard history w known)
    where
      go :
          (o : Outcome ProviderTurn)
          → Heard history w o
          → Heard history w (then_with (λ t. charge env session t.usage >> pure t) o)
      go (done t v) (h, asked) = (record { own = h.own; others = h.others }, asked)
      go (failed e v) h = h

  -- What the loop has added when it ends, and how it ends.
  pub record Added (spare : ChatMessage) (left : ℕ) (history : List ChatMessage) (w : World)
      (o : Outcome Final) : Type 0 where
    pub new : List ChatMessage
    pub rounds : Rounds (reply_of env session body) spare left history new (told o)
    pub wrote : Wrote session.id new w (after o)

  -- A round with tools, and what the rest of the loop adds.
  with_tools :
      (spare : ChatMessage) (left : ℕ) (history : List ChatMessage) (w v : World) (n : ℕ)
      (t : ProviderTurn) (k : List ContentBlock → M Final)
      → reply n history ≡ turn t
      → is_empty (tool_uses t.message.content) ≡ false
      → Known session.id v
      → Wrote session.id (t.message ∷ []) w v
      → ((results : List ContentBlock) (u : World)
          → Known session.id u
          → Added spare left
              ((history ++ t.message ∷ []) ++ message_of tool results ∷ [])
              u
              (k results u))
      → Added spare (suc left) history w (
          (run_tools env session body.plan_only (tool_uses t.message.content) >>= λ results.
          append session.id (message_of tool results ∷ []) >> k results)
            v)
  with_tools spare left history w v n t k asked nonempty known wrote rest =
      let r = run_tools-Answered env session body.plan_only (tool_uses t.message.content) v in
      let silent : r.last.sessions ≡ v.sessions =
        rw r.result at ((tools-Silent (tool_uses t.message.content)).run v).sessions in
      let said = Wrote-same session.id v r.last silent in
      let (u, e, told) =
        append-Known session.id (message_of tool r.results ∷ []) r.last (Known-Wrote known said) in
      let more = rest r.results u (Known-Wrote (Known-Wrote known said) told) in
      rw (r.result, e)
        (record {
          new = t.message ∷ message_of tool r.results ∷ more.new;
          rounds = round n t r.results asked nonempty r.complete more.rounds;
          wrote = Wrote-trans wrote (Wrote-trans said (Wrote-trans told more.wrote));
        })

  pub turns-Added :
      (left : ℕ) (history : List ChatMessage) (fin : Final) (w : World)
      → Known session.id w
      → Added fin.message left history w (turns env session body left history fin w)
  unfolding turns
  turns-Added zero history fin w known = record {
    new = [];
    rounds = exhausted;
    wrote = Wrote-same session.id w w refl;
  }
  turns-Added (suc left) history fin w known =
      go (turns-Added left) (provider_step env session body history w)
        (provider_step-Heard history w known)
    where
      next : ProviderTurn → M Final
      next t =
          let rest = turns env session body left in
          if is_empty (tool_uses t.message.content)
          then pure (record { message = t.message; stop = t.stop_reason; usage = t.usage })
          else (do
            results ← run_tools env session body.plan_only (tool_uses t.message.content)
            append session.id (message_of tool results ∷ [])
            rest ((history ++ t.message ∷ []) ++ message_of tool results ∷ [])
                (record { message = fin.message; stop = t.stop_reason; usage = t.usage }))

      go :
          ((history : List ChatMessage) (f : Final) (u : World)
            → Known session.id u
            → Added f.message left history u (turns env session body left history f u))
          → (o : Outcome ProviderTurn) → Heard history w o
          → Added fin.message (suc left) history w (then_with next o)
      go rest (failed e v) (h, (n, x, asked)) = record {
        new = [];
        rounds = broken n x asked;
        wrote = Wrote-same session.id w v h;
      }
      go rest (done t v) (h, (n, asked)) =
          elim (Bool-cases (is_empty (tool_uses t.message.content))) [
            | inl e ↦ rw e (record { new = t.message ∷ []; rounds = final n t asked e; wrote = h })
            | inr e ↦ rw e (
                with_tools fin.message left history w v n t _ asked e (Known-Wrote known h) h
                  λ results u k. rest _ _ u k)
          ]
