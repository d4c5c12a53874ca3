-- ===== src/Ai/Dispatch/Gate.antt =====
-- The gate of launcher/xlpod-server/src/ai/dispatch.rs: no tool acts without permission, and an
-- acting tool stays within what the session may do.
use xlpod.Common.{
  suc, ◌≡◌, refl, ◌⊎◌, inl, inr, Bool, true, false, String, some, ◌∷◌, In, contains, contains-In,
  arith, Bool-cases, Option-cases, text_eq,
}
use xlpod.Error.{ApiError, ai_tool_denied}
use xlpod.Json.{Value}
use xlpod.Auth.{scope_eq}
use xlpod.Consent.{ConsentRequest}
use xlpod.Ai.Types.{ToolSpec, ApprovedVia, auto, dialog, trust_window}
use xlpod.Ai.Tools.{find_tool}
use xlpod.Ai.TrustWindow.{covers}
use xlpod.Ai.TrustWindow.Coverage.{Covered, covers_iff}
use xlpod.Ai.Session.{Session}
use xlpod.System.{Env, World, ai_asked, Outcome, M, done, failed, then_with, ◌>>=◌, pure, after}
use xlpod.System.Logic.{Within, Stays, Stays-bind, Stays-pure}
use xlpod.Ai.Dispatch.{tool_request, approve, run_tool, run_one, as_block, execute_tool_use}
use xlpod.Ai.Dispatch.Effects.{MayDo, Stays-run_tool}

-- How a tool that needs approval got it: by a window that was open when its clock was read, or by
-- the user's answer to the dialog for exactly this session and scope.
abbrev pub Approved : Env → Session → String → ToolSpec → World → ApprovedVia → Type 0
Approved env session name spec w via =
    ((via ≡ trust_window) × Covered (env.window_ms w.ticks) session.id name w.windows)
    ⊎ ((via ≡ dialog) × (env.ai_consent (suc w.ticks) (tool_request env session spec) ≡ true))

-- What has been checked before a tool runs.
pub record Permit (env : Env) (session : Session) (plan_only : Bool) (name : String) (w : World)
    (via : ApprovedVia) (spec : ToolSpec) : Type 0 where
  pub known : find_tool env.json name ≡ some spec
  pub granted : In spec.required_scope session.granted_scopes
  pub approved :
      ((spec.mutates ≡ false) × (via ≡ auto))
      ⊎ ((spec.mutates ≡ true) × (plan_only ≡ false) × Approved env session name spec w via)

-- A run of the gate: it refuses with at most one dialog, or hands a permitted tool on.
abbrev Gated : Env → Session → Bool → String → World → ToolSpec → Outcome ApprovedVia → Type 0
Gated env session plan_only name w spec (failed e w') =
    (w' ≡ record w { ticks = w'.ticks })
    ⊎ (w' ≡ record w {
      ticks = w'.ticks;
      trace = ai_asked (tool_request env session spec) false ∷ w.trace;
    })
Gated env session plan_only name w spec (done via w') =
    (((spec.mutates ≡ false) × (via ≡ auto))
      ⊎ ((spec.mutates ≡ true)
          × (plan_only ≡ false)
          × ((via ≡ trust_window)
                × (covers (env.window_ms w.ticks) session.id name w.windows ≡ true)
              ⊎ (via ≡ dialog)
                × (env.ai_consent (suc w.ticks) (tool_request env session spec) ≡ true))))
    × ((w' ≡ record w { ticks = w'.ticks })
        ⊎ (w' ≡ record w {
          ticks = w'.ticks;
          trace = ai_asked (tool_request env session spec) true ∷ w.trace;
        }))

approve-Gated :
    (env : Env) (session : Session) (plan_only : Bool) (spec : ToolSpec) (name : String) (w : World)
    → Gated env session plan_only name w spec (approve env session plan_only spec name w)
unfolding approve
approve-Gated env session plan_only spec name w = ground arith

-- A refused call: it fails, and at most one dialog, answered no, was shown.
pub record Refused (w : World) (o : Outcome (Value × ApprovedVia)) : Type 0 where
  pub error : ApiError
  pub last : World
  pub failed_with : o ≡ failed error last
  pub harmless :
      (last ≡ record w { ticks = last.ticks })
      ⊎ ((req : ConsentRequest) × (last
            ≡ record w { ticks = last.ticks; trace = ai_asked req false ∷ w.trace }))

-- The way of approval that a successful call reports.
abbrev pub Reports : ApprovedVia → Outcome (Value × ApprovedVia) → Type 0
Reports via (done (v, u) w) = u ≡ via
Reports via (failed e w) = Unit

-- A call that reached its tool: it was permitted, at most one dialog, answered yes, was shown, and
-- from then on it did only what the tool's scope allows.
pub record Ran (env : Env) (session : Session) (plan_only : Bool) (name : String) (input : Value)
    (w : World) (o : Outcome (Value × ApprovedVia)) : Type 0 where
  pub via : ApprovedVia
  pub spec : ToolSpec
  pub permit : Permit env session plan_only name w via spec
  pub start : World
  pub at_gate :
      (start ≡ record w { ticks = start.ticks })
      ⊎ (start ≡ record w {
        ticks = start.ticks;
        trace = ai_asked (tool_request env session spec) true ∷ w.trace;
      })
  pub acted : Within (MayDo env session input spec.required_scope) start (after o)
  pub told : Reports via o

module _ (env : Env) (session : Session) (plan_only : Bool) (name : String) (input : Value)
    (w : World) where
  finish : (spec : ToolSpec) → ApprovedVia → M (Value × ApprovedVia)
  finish spec via =
      run_tool env session spec.required_scope name input >>= λ value. pure (value, via)

  Stays-finish :
      (spec : ToolSpec) (via : ApprovedVia)
      → Stays (MayDo env session input spec.required_scope) (finish spec via)
  unfolding finish
  Stays-finish spec via =
      Stays-bind (Stays-run_tool env session spec.required_scope name input)
        λ v. Stays-pure (v, via)

  finish-Reports :
      (spec : ToolSpec) (via : ApprovedVia) (v : World) → Reports via (finish spec via v)
  unfolding finish
  finish-Reports spec via v = ground arith

  after_gate :
      (spec : ToolSpec) (o : Outcome ApprovedVia)
      → find_tool env.json name ≡ some spec
      → In spec.required_scope session.granted_scopes
      → Gated env session plan_only name w spec o
      → Refused w (then_with (finish spec) o)
        ⊎ Ran env session plan_only name input w (then_with (finish spec) o)
  after_gate spec (failed e v) known granted g = inl (record {
    error = e;
    last = v;
    failed_with = refl;
    harmless = elim g [ inl h ↦ inl h | inr h ↦ inr (tool_request env session spec, h) ];
  })
  after_gate spec (done via v) known granted (g, at) = inr (record {
    via = via;
    spec = spec;
    permit = record { known = known; granted = granted; approved = approved g };
    start = v;
    at_gate = at;
    acted = (Stays-finish spec via).run v;
    told = finish-Reports spec via v;
  })
    where
      approved :
          ((spec.mutates ≡ false) × (via ≡ auto))
            ⊎ ((spec.mutates ≡ true)
                × (plan_only ≡ false)
                × ((via ≡ trust_window)
                      × (covers (env.window_ms w.ticks) session.id name w.windows ≡ true)
                    ⊎ (via ≡ dialog)
                      × (env.ai_consent (suc w.ticks) (tool_request env session spec) ≡ true)))
          → ((spec.mutates ≡ false) × (via ≡ auto))
            ⊎ ((spec.mutates ≡ true) × (plan_only ≡ false) × Approved env session name spec w via)
      approved (inl h) = inl h
      approved (inr (m, p, inl (v, c))) = inr (m, p, inl (v, (covers_iff _ _ _ _).0 c))
      approved (inr (m, p, inr d)) = inr (m, p, inr d)

  -- A tool call is refused before its tool does anything, or the tool is a known one whose scope
  -- the session was granted, and, if it mutates, planning is over and a trust window or the user's
  -- answer covers it; and then no store changes, and all that the tool does is, by that scope: it
  -- reads files under the session's roots, sends the worker the Excel requests of its input, or
  -- sends it the code of its input to run.
  pub run_one-gated :
      Refused w (run_one env session plan_only name input w)
      ⊎ Ran env session plan_only name input w (run_one env session plan_only name input w)
  unfolding run_one finish
  run_one-gated = elim (Option-cases (find_tool env.json name)) [
    | inl unknown ↦
        rw (unknown, run_one)
          (inl
            (record { error = ai_tool_denied; last = w; failed_with = refl; harmless = inl refl }))
    | inr (spec, known) ↦ elim (Bool-cases (contains session.granted_scopes spec.required_scope)) [
      | inl held ↦
          rw (known, held, run_one)
            (after_gate spec (approve env session plan_only spec name w) known
              (contains-In session.granted_scopes spec.required_scope held)
              (approve-Gated env session plan_only spec name w))
      | inr lacking ↦
          rw (known, lacking, run_one)
            (inl (record {
              error = ai_tool_denied;
              last = w;
              failed_with = refl;
              harmless = inl refl;
            }))
    ]
  ]

after-as_block :
    (env : Env) (id : String) (o : Outcome (Value × ApprovedVia))
    → after (as_block env id o) ≡ after o
unfolding as_block
after-as_block env id (done (value, via) v) = refl
after-as_block env id (failed e v) = refl

-- Turning the result of a tool call into a block changes nothing more.
pub after-execute_tool_use :
    (env : Env) (session : Session) (plan_only : Bool) (id name : String) (input : Value)
    (w : World)
    → after (execute_tool_use env session plan_only id name input w)
      ≡ after (run_one env session plan_only name input w)
unfolding execute_tool_use
after-execute_tool_use env session plan_only id name input w =
    after-as_block env id (run_one env session plan_only name input w)
