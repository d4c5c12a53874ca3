-- ===== src/Ai/Dispatch/Acts.antt =====
-- What executing a tool call of launcher/xlpod-server/src/ai/dispatch.rs does outside, as one rule.
use xlpod.Common.{◌≡◌, ap, ◌⊎◌, inl, inr, Bool, true, false, String, some, [], ◌∷◌, In, text_eq}
use xlpod.Json.{Value}
use xlpod.Consent.{ConsentRequest}
use xlpod.Ai.Types.{ApprovedVia, ToolSpec}
use xlpod.Ai.Tools.{find_tool}
use xlpod.Ai.Session.{Session}
use xlpod.Ai.Dispatch.{tool_request, execute_tool_use, run_one}
use xlpod.Ai.Dispatch.Effects.{MayDo}
use xlpod.Ai.Dispatch.Gate.{run_one-gated, after-execute_tool_use, Permit}
use xlpod.System.{Env, World, Event, ai_asked, after}
use xlpod.System.Logic.{Within, Within-trans, Within-mono, Stays}

-- What a session's tool did: the tool is known, the session was granted its scope, in plan mode it
-- does not mutate, and it did no more than its scope allows.
pub record ByTool (env : Env) (session : Session) (plan_only : Bool) (e : Event) : Type 0 where
  pub name : String
  pub input : Value
  pub spec : ToolSpec
  pub known : find_tool env.json name ≡ some spec
  pub granted : In spec.required_scope session.granted_scopes
  pub unplanned : (spec.mutates ≡ false) ⊎ (plan_only ≡ false)
  pub acted : MayDo env session input spec.required_scope e

abbrev pub IsDialog : Event → Type 0
IsDialog (ai_asked req answer) = Unit
IsDialog _ = ⊥

-- What executing a tool call may do outside: show a dialog, and what the tool does.
abbrev pub MayAct : Env → Session → Bool → Event → Type 0
MayAct env session plan_only e = IsDialog e ⊎ ByTool env session plan_only e

module _ (env : Env) (session : Session) (plan_only : Bool) where
  abbrev May : Event → Type 0
  May = MayAct env session plan_only

  tool_event :
      {name : String} (input : Value) {w : World} {via : ApprovedVia} {spec : ToolSpec}
      → Permit env session plan_only name w via spec
      → (e : Event) → MayDo env session input spec.required_scope e
      → May e
  tool_event {name} input {spec = spec} p e h = inr (record {
    name = name;
    input = input;
    spec = spec;
    known = p.known;
    granted = p.granted;
    unplanned = elim p.approved [ inl a ↦ inl a.0 | inr a ↦ inr a.1 ];
    acted = h;
  })

  unasked : (w v : World) → v ≡ record w { ticks = v.ticks } → Within May w v
  unasked w v e = record {
    events = [];
    trace = ap (λ u. u.trace) e;
    allowed = tt;
    tokens = ap (λ u. u.tokens) e;
    limiter = ap (λ u. u.limiter) e;
    audit = ap (λ u. u.audit) e;
    sessions = ap (λ u. u.sessions) e;
    windows = ap (λ u. u.windows) e;
    cost = ap (λ u. u.cost) e;
  }

  asked_once :
      (w v : World) (req : ConsentRequest) (b : Bool)
      → v ≡ record w { ticks = v.ticks; trace = ai_asked req b ∷ w.trace }
      → Within May w v
  asked_once w v req b e = record {
    events = ai_asked req b ∷ [];
    trace = ap (λ u. u.trace) e;
    allowed = (inl tt, tt);
    tokens = ap (λ u. u.tokens) e;
    limiter = ap (λ u. u.limiter) e;
    audit = ap (λ u. u.audit) e;
    sessions = ap (λ u. u.sessions) e;
    windows = ap (λ u. u.windows) e;
    cost = ap (λ u. u.cost) e;
  }

  Within-run_one :
      (name : String) (input : Value) (w : World)
      → Within May w (after (run_one env session plan_only name input w))
  Within-run_one name input w = elim (run_one-gated env session plan_only name input w) [
    | inl r ↦ rw r.failed_with (elim r.harmless [
      | inl e ↦ unasked w r.last e
      | inr (req, e) ↦ asked_once w r.last req false e
    ])
    | inr r ↦
        Within-trans
          (elim r.at_gate [
            | inl e ↦ unasked w r.start e
            | inr e ↦ asked_once w r.start (tool_request env session r.spec) true e
          ])
          (Within-mono (tool_event input r.permit) r.acted)
  ]

  -- Executing a tool call changes no store, and does outside only what it may.
  pub Stays-execute_tool_use :
      (id name : String) (input : Value)
      → Stays May (execute_tool_use env session plan_only id name input)
  Stays-execute_tool_use id name input = record {
    run = λ w.
        rw (after-execute_tool_use env session plan_only id name input w)
          (Within-run_one name input w);
  }
