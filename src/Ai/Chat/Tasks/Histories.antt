-- ===== src/Ai/Chat/Tasks/Histories.antt =====
-- What one stretch of a chat of launcher/xlpod-server/src/routes.rs keeps: its history stands in
-- the stored transcript of its session.
use xlpod.Common.{
  ℕ, zero, suc, ◌≡◌, refl, inl, inr, false, List, [], ◌∷◌, ◌++◌, All, Bool-cases, contains,
  is_empty, nat_eq, text_eq,
}
use xlpod.Auth.{Result, ok, err}
use xlpod.Ai.Types.{Uuid, ContentBlock, tool, ChatMessage, ChatRequest}
use xlpod.Ai.Session.{Session, get_session}
use xlpod.Ai.Cost.{over_budget}
use xlpod.Ai.Dispatch.{execute_tool_use}
use xlpod.Ai.Chat.{append, get, charge, tool_uses, Final, no_final, max_turns, message_of, hear}
use xlpod.Ai.Chat.Growth.{Longer, Grows, Grows-Order, Follows-append}
use xlpod.Ai.Chat.Stores.{MayChat, Allows-Grows}
use xlpod.Ai.Chat.Following.{Allows, Follows-get, Follows-hear}
use xlpod.Ai.Chat.Wrote.{Wrote, append-Known}
use xlpod.Ai.Chat.Rounds.Loop.{Heard, hear-Heard}
use xlpod.Ai.Chat.Tasks.{
  Locals, Task, asking, charging, acting, ended, next_turn, settle, after_charge, resume, entry,
  begin_chat,
}
use xlpod.Ai.Chat.Tasks.Pool.{Part-refl, Part-longer, Part-append, Stored, Holds}
use xlpod.System.{
  Env, World, Event, ProviderTurn, Outcome, done, failed, ◌>>=◌, pure, then_with, lift, after,
}
use xlpod.System.Order.{same, Follows, follows}

settled : {A : Type 0} (f : A → Task) (o : Outcome A) → (settle f o).0 ≡ after o
settled f (done a w) = refl
settled f (failed e w) = refl

-- What a chat may do outside.
abbrev pub MayTask : Env → Task → Event → Type 0
MayTask env (asking v) = MayChat env v.session v.body.plan_only
MayTask env (charging v t) = MayChat env v.session v.body.plan_only
MayTask env (acting v us results) = MayChat env v.session v.body.plan_only
MayTask env (ended r) = λ e. ⊥

module _ (env : Env) where
  allows :
      (v : Locals) → Allows (Grows (MayChat env v.session v.body.plan_only)) env v.session v.body
  allows v = Allows-Grows env v.session v.body

  pub Grows-resume : (t : Task) (w : World) → Grows (MayTask env t) w (resume env t w).0
  unfolding resume
  Grows-resume (asking v) w =
      rw settled ((Follows-hear env v.session v.body (allows v) v.history).run w)
  Grows-resume (charging v t) w = rw settled (((allows v).charges t.usage).run w)
  Grows-resume (acting v [] results) w =
      rw settled (((allows v).appends (message_of tool results ∷ [])).run w)
  Grows-resume (acting v (u ∷ us) results) w =
      rw settled (((allows v).acts u.id u.name u.input).run w)
  Grows-resume (ended r) w = same (Grows (λ e. ⊥)) w

Stored-Longer :
    {id : Uuid} {l : List ChatMessage} {w w' : World}
    → Longer w.sessions w'.sessions
    → Stored id l w
    → Stored id l w'
Stored-Longer {id} f s =
    let (more, e) = f id s.session s.found in
    record { session = _; found = e; part = Part-longer more s.part }

Stored-Wrote :
    {id : Uuid} {l new : List ChatMessage} {w w' : World}
    → Wrote id new w w'
    → Stored id l w
    → Stored id (l ++ new) w'
Stored-Wrote {new} f s = record {
  session = _;
  found = f.own s.session s.found;
  part = Part-append new s.part;
}

pub Holds-Longer :
    (t : Task) (w w' : World) → Longer w.sessions w'.sessions → Holds w t → Holds w' t
Holds-Longer (asking v) w w' f h = Stored-Longer f h
Holds-Longer (charging v t) w w' f h = Stored-Longer f h
Holds-Longer (acting v us results) w w' f h = Stored-Longer f h
Holds-Longer (ended r) w w' f h = h

pub All-Holds-Longer :
    (ts : List Task) (w w' : World)
    → Longer w.sessions w'.sessions
    → All (Holds w) ts
    → All (Holds w') ts
All-Holds-Longer [] w w' f h = tt
All-Holds-Longer (t ∷ ts) w w' f (h, hs) = (Holds-Longer t w w' f h, All-Holds-Longer ts w w' f hs)

Holds-next_turn :
    (session : Session) (body : ChatRequest) (left : ℕ) (history : List ChatMessage) (fin : Final)
    {w : World}
    → Stored session.id history w
    → Holds w (next_turn session body left history fin)
Holds-next_turn session body zero history fin h = tt
Holds-next_turn session body (suc left) history fin h = h

Holds-after_charge :
    (v : Locals) (t : ProviderTurn) {w : World}
    → Stored v.session.id (v.history ++ t.message ∷ []) w
    → Holds w (after_charge v t)
Holds-after_charge v t h = elim (Bool-cases (is_empty (tool_uses t.message.content))) [
  | inl e ↦ rw e tt
  | inr e ↦ rw e h
]

module _ (env : Env) where
  pub Holds-resume :
      (t : Task) (w : World) → Holds w t → Holds (resume env t w).0 (resume env t w).1
  unfolding resume charge
  Holds-resume (asking v) w h =
      go (hear env v.session v.body v.history w)
        (hear-Heard env v.session v.body v.history w (h.session, h.found))
    where
      go :
          (o : Outcome ProviderTurn)
          → Heard env v.session v.body v.history w o
          → Holds (settle (charging v) o).0 (settle (charging v) o).1
      go (done t u) k = Stored-Wrote k.0 h
      go (failed e u) k = tt
  Holds-resume (charging v t) w h =
      Holds-after_charge v t (record { session = h.session; found = h.found; part = h.part })
  Holds-resume (acting v [] results) w h =
      let (u, e, wrote) =
        append-Known v.session.id (message_of tool results ∷ []) w (h.session, h.found) in
      rw e (Holds-next_turn v.session v.body v.left _ v.fin (Stored-Wrote wrote h))
  Holds-resume (acting v (u ∷ us) results) w h =
      go (execute_tool_use env v.session v.body.plan_only u.id u.name u.input w)
        (Grows-resume env (acting v (u ∷ us) results) w).sessions
    where
      go :
          (o : Outcome ContentBlock)
          → Longer w.sessions (settle (λ r. acting v us (results ++ r ∷ [])) o).0.sessions
          → Holds
              (settle (λ r. acting v us (results ++ r ∷ [])) o).0
              (settle (λ r. acting v us (results ++ r ∷ [])) o).1
      go (done b x) f = Stored-Longer f h
      go (failed e x) f = tt
  Holds-resume (ended r) w h = h

  pub Longer-begin_chat :
      (body : ChatRequest) (w : World) → Longer w.sessions (begin_chat env body w).0.sessions
  unfolding begin_chat entry
  Longer-begin_chat body w = rw settled (grown.run w).sessions
    where
      grown : Follows (Grows (λ e. ⊥)) (entry env body)
      grown = search (follows, Follows-append, Follows-get) depth 14

  Holds-entered :
      (session : Session) (body : ChatRequest) (o : Outcome (Unit {0}))
      → let entered =
          settle
            (λ t. t)
            (then_with
              (λ u. get session.id >>= λ current.
                pure (next_turn session body max_turns current.messages no_final))
              o) in
        Holds entered.0 entered.1
  unfolding get
  Holds-entered session body (failed e x) = tt
  Holds-entered session body (done u x) = go (get_session session.id x.sessions) refl
    where
      go :
          (r : Result Session)
          → get_session session.id x.sessions ≡ r
          → let entered =
              settle
                (λ t. t)
                (then_with
                  (λ current. pure (next_turn session body max_turns current.messages no_final))
                  (lift r x)) in
            Holds entered.0 entered.1
      go (err e) known = tt
      go (ok s) known = record { session = s; found = known; part = Part-refl s.messages }

  pub Holds-begin_chat :
      (body : ChatRequest) (w : World) → Holds (begin_chat env body w).0 (begin_chat env body w).1
  unfolding begin_chat entry get
  Holds-begin_chat body w = elim (Bool-cases (over_budget w.cost)) [
    | inl over ↦ rw over tt
    | inr under ↦ found under (get_session body.session_id w.sessions) refl
  ]
    where
      found :
          over_budget w.cost ≡ false
          → (r : Result Session) → get_session body.session_id w.sessions ≡ r
          → Holds (begin_chat env body w).0 (begin_chat env body w).1
      found under (err x) e = rw (under, e) tt
      found under (ok session) e = elim (Bool-cases (contains env.providers session.provider)) [
        | inl listed ↦
            rw (under, e, listed) (Holds-entered session body (append session.id body.messages w))
        | inr missing ↦ rw (under, e, missing) tt
      ]
