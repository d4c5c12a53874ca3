-- ===== src/Ai/Chat/Tasks/Bound.antt =====
-- How often chats of launcher/xlpod-server/src/routes.rs that run at once call the provider.
use xlpod.Common.{
  ℕ, zero, suc, ◌+◌, ◌*◌, ◌≤◌, ◌≡◌, refl, inl, inr, false, List, [], ◌∷◌, ◌++◌, Bool-cases,
  contains, is_empty, text_eq, arith,
}
use xlpod.Auth.{Result, ok, err}
use xlpod.Ai.Types.{tool, ChatMessage, ChatRequest}
use xlpod.Ai.Session.{Session, get_session}
use xlpod.Ai.Cost.{over_budget}
use xlpod.Ai.Dispatch.{execute_tool_use}
use xlpod.Ai.Chat.{append, get, charge, tool_uses, Final, no_final, max_turns, message_of, hear}
use xlpod.Ai.Chat.Calls.{calls, calls-append, Calls, Makes}
use xlpod.Ai.Chat.Turns.{Makes-hear, Makes-charge, Makes-execute_tool_use, Makes-append}
use xlpod.Ai.Chat.Tasks.{
  Locals, Task, asking, charging, acting, ended, next_turn, settle, after_charge, resume, entry,
  begin_chat,
}
use xlpod.Ai.Chat.Tasks.Pool.{Executor, fresh, Step, arrive, proceed, other, Reach, start, later}
use xlpod.System.{
  Env, World, ProviderTurn, Outcome, M, done, failed, ◌>>=◌, pure, then_with, lift, after,
}

-- The calls of the provider that a chat may still make.
abbrev pub may_call : Task → ℕ
may_call (asking v) = suc v.left
may_call (charging v t) = v.left
may_call (acting v us results) = v.left
may_call (ended r) = 0

abbrev pub may_call_all : List Task → ℕ
may_call_all [] = 0
may_call_all (t ∷ ts) = may_call t + may_call_all ts

may_call-next_turn :
    (session : Session) (body : ChatRequest) (left : ℕ) (history : List ChatMessage) (fin : Final)
    → may_call (next_turn session body left history fin) ≤ left
may_call-next_turn session body zero history fin = omega arith
may_call-next_turn session body (suc left) history fin = omega arith

may_call-after_charge : (v : Locals) (t : ProviderTurn) → may_call (after_charge v t) ≤ v.left
may_call-after_charge v t = elim (Bool-cases (is_empty (tool_uses t.message.content))) [
  | inl e ↦ rw e (omega arith)
  | inr e ↦ rw e (omega arith)
]

-- A stretch calls the provider no more often than it then may less.
abbrev Spends : ℕ → World → World × Task → Type 0
Spends n w s = calls s.0.trace + may_call s.1 ≤ calls w.trace + n

spends :
    {A : Type 0} (n k : ℕ) {total : ℕ} (w : World) (f : A → Task) (m : M A)
    → n + k ≤ total
    → Makes n m
    → ((a : A) → may_call (f a) ≤ k)
    → Spends total w (settle f (m w))
spends {A} n k {total} w f m le c h = go (m w) (c.run w)
  where
    go : (o : Outcome A) → Calls n w (after o) → Spends total w (settle f o)
    go (done a x) c = rw c.trace (omega (arith, calls-append c.events w.trace, c.few, h a))
    go (failed e x) c = rw c.trace (omega (arith, calls-append c.events w.trace, c.few))

module _ (env : Env) where
  Spends-resume : (t : Task) (w : World) → Spends (may_call t) w (resume env t w)
  unfolding resume
  Spends-resume (asking v) w =
      spends 1 v.left w (charging v) (hear env v.session v.body v.history) (omega arith)
        (Makes-hear env v.session v.body v.history) (λ t. omega arith)
  Spends-resume (charging v t) w =
      spends 0 v.left w (λ u. after_charge v t) (charge env v.session t.usage) (omega arith)
        (Makes-charge env v.session t.usage) (λ u. may_call-after_charge v t)
  Spends-resume (acting v [] results) w =
      let history = v.history ++ message_of tool results ∷ [] in
      spends 0 v.left w (λ u. next_turn v.session v.body v.left history v.fin)
        (append v.session.id (message_of tool results ∷ [])) (omega arith)
        (Makes-append env v.session v.session.id (message_of tool results ∷ []))
        (λ u. may_call-next_turn v.session v.body v.left history v.fin)
  Spends-resume (acting v (u ∷ us) results) w =
      spends 0 v.left w (λ r. acting v us (results ++ r ∷ []))
        (execute_tool_use env v.session v.body.plan_only u.id u.name u.input) (omega arith)
        (Makes-execute_tool_use env v.session v.body.plan_only u.id u.name u.input)
        (λ r. omega arith)
  Spends-resume (ended r) w = omega arith

  -- The stretch after the append of `entry`.
  entered : Session → ChatRequest → M Task
  entered session body = do
    current ← get session.id
    pure (next_turn session body max_turns current.messages no_final)

  Spends-entered :
      (session : Session) (body : ChatRequest) (w : World) (o : Outcome (Unit {0}))
      → Calls 0 w (after o)
      → Spends 8 w (settle (λ t. t) (then_with (λ u. entered session body) o))
  unfolding entered get
  Spends-entered session body w (failed e x) c =
      rw c.trace (omega (arith, calls-append c.events w.trace, c.few))
  Spends-entered session body w (done u x) c = go (get_session session.id x.sessions)
    where
      go :
          (r : Result Session)
          → Spends 8 w (
              settle
                (λ t. t)
                (then_with
                  (λ current. pure (next_turn session body max_turns current.messages no_final))
                  (lift r x)))
      go (ok s) = rw c.trace (omega (arith, calls-append c.events w.trace, c.few))
      go (err e) = rw c.trace (omega (arith, calls-append c.events w.trace, c.few))

  Spends-begin_chat :
      (body : ChatRequest) (w : World) → Spends (8 * fresh w) w (begin_chat env body w)
  unfolding begin_chat entry get entered
  Spends-begin_chat body w = elim (Bool-cases (over_budget w.cost)) [
    | inl over ↦ rw over (omega arith)
    | inr under ↦ found under (get_session body.session_id w.sessions) refl
  ]
    where
      found :
          over_budget w.cost ≡ false
          → (r : Result Session) → get_session body.session_id w.sessions ≡ r
          → Spends (8 * fresh w) w (begin_chat env body w)
      found under (err x) e = rw (under, e) (omega arith)
      found under (ok session) e = elim (Bool-cases (contains env.providers session.provider)) [
        | inl listed ↦
            rw (under, e, listed)
              (Spends-entered session body w (append session.id body.messages w)
                ((Makes-append env session session.id body.messages).run w))
        | inr missing ↦ rw (under, e, missing) (omega arith)
      ]

  may_call_all-replaced :
      (front back : List Task) (t t' : Task)
      → may_call_all (front ++ t' ∷ back) + may_call t
        ≡ may_call_all (front ++ t ∷ back) + may_call t'
  may_call_all-replaced [] back t t' = omega arith
  may_call_all-replaced (x ∷ front) back t t' = omega (arith, may_call_all-replaced front back t t')

  -- The calls that have been made and those that the chats may still make.
  abbrev pub budgeted : Executor → ℕ
  budgeted s = calls s.world.trace + may_call_all s.tasks

  budgeted-Step : {s t : Executor} {n : ℕ} → Step env s n t → budgeted t ≤ budgeted s + 8 * n
  budgeted-Step {s} (arrive body) = omega (arith, Spends-begin_chat body s.world)
  budgeted-Step {s} (proceed front back t e) = rw e (
      omega (
        arith,
        Spends-resume t s.world,
        may_call_all-replaced front back t (resume env t s.world).1,
      ))
  budgeted-Step (other w elsewhere) = omega (arith, elsewhere.silent)

  -- However chats and other requests are interleaved, the calls of the provider that have been made
  -- are at most those before, eight for each request that has found budget left, and those that
  -- the chats in progress at the start could still make.
  pub Reach-budgeted :
      {s : Executor} {n : ℕ} {t : Executor}
      → Reach env s n t
      → calls t.world.trace + may_call_all t.tasks
        ≤ calls s.world.trace + may_call_all s.tasks + 8 * n
  Reach-budgeted start = omega arith
  Reach-budgeted (later r step) = omega (arith, Reach-budgeted r, budgeted-Step step)
