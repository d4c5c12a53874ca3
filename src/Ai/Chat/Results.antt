-- ===== src/Ai/Chat/Results.antt =====
-- The tool results of one turn of the chat loop in launcher/xlpod-server/src/routes.rs.
use xlpod.Common.{◌≡◌, refl, Bool, true, false, String, List, [], ◌∷◌, none, some}
use xlpod.Json.{Value}
use xlpod.Ai.Types.{ContentBlock, text, tool_use, tool_result, ApprovedVia}
use xlpod.Ai.Session.{Session}
use xlpod.Ai.Dispatch.{execute_tool_use, run_one, as_block, error_payload}
use xlpod.Ai.Chat.{ToolUse, run_tools}
use xlpod.System.{Env, World, Outcome, done, failed}

-- The block that answers a tool call with this id.
abbrev pub Answers : String → ContentBlock → Type 0
Answers i (tool_result id ok value via) = i ≡ id
Answers i (text s) = ⊥
Answers i (tool_use id name input) = ⊥

-- One answer for each call, in the calls' order.
abbrev pub AnswersAll : List ToolUse → List ContentBlock → Type 0
AnswersAll [] [] = Unit
AnswersAll [] (b ∷ bs) = ⊥
AnswersAll (u ∷ us) [] = ⊥
AnswersAll (u ∷ us) (b ∷ bs) = Answers u.id b × AnswersAll us bs

-- A turn whose tools have all been answered.
pub record Answered (env : Env) (session : Session) (plan_only : Bool) (us : List ToolUse)
    (w : World) : Type 0 where
  pub results : List ContentBlock
  pub last : World
  pub result : run_tools env session plan_only us w ≡ done results last
  pub complete : AnswersAll us results

module _ (env : Env) (session : Session) (plan_only : Bool) where
  one_block :
      (u : ToolUse) (w : World)
      → (b : ContentBlock) × (v : World) × (execute_tool_use env session plan_only u.id u.name
            u.input w
          ≡ done b v)
        × Answers u.id b
  unfolding execute_tool_use as_block
  one_block u w = go (run_one env session plan_only u.name u.input w)
    where
      go :
          (o : Outcome (Value × ApprovedVia))
          → (b : ContentBlock) × (v : World) × (as_block env u.id o ≡ done b v) × Answers u.id b
      go (done (value, via) v) = (tool_result u.id true value (some via), v, refl, refl)
      go (failed e v) = (tool_result u.id false (error_payload env e) none, v, refl, refl)

-- A turn's tools never abort the conversation: whatever is refused or fails, the tools of a turn
-- give exactly one result for each call, in the order of the calls and with their ids.
pub run_tools-Answered :
    (env : Env) (session : Session) (plan_only : Bool) (us : List ToolUse) (w : World)
    → Answered env session plan_only us w
unfolding run_tools
run_tools-Answered env session plan_only [] w = record {
  results = [];
  last = w;
  result = refl;
  complete = tt;
}
run_tools-Answered env session plan_only (u ∷ us) w =
    let (b, v, e, a) = one_block env session plan_only u w in
    let r = run_tools-Answered env session plan_only us v in
    record {
      results = b ∷ r.results;
      last = r.last;
      result = rw (e, r.result);
      complete = (a, r.complete);
    }
