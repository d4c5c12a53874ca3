-- ===== src/Tests/Conversation.antt =====
-- The AI bridge of launcher/xlpod-server on concrete inputs.
use xlpod.Common.{lookup, refl, ◌+◌, ◌*◌, ◌≤◌, none, ◌≡◌, ◌⊎◌, true, false, List, [], ◌∷◌}
use xlpod.Ai.Dispatch.{run_one}
use xlpod.Ai.Dispatch.Gate.{Refused, Ran, run_one-gated}
use xlpod.Ai.Chat.{ToolUse, ai_chat}
use xlpod.Ai.Chat.Turns.{Admitted, ai_chat-Calls}
use xlpod.Ai.Chat.Calls.{Calls, calls}
use xlpod.System.{ai_asked, key_written, after}
use xlpod.Routes.Assistant.{key_request, ai_set_provider_key}
use xlpod.Routes.Assistant.Scopes.{ai_set_provider_key-trace}
use xlpod.Routes.Assistant.{ai_open_trust_window}
use xlpod.Routes.Assistant.Opening.{
  Opened, ai_open_session-Opened, dialog_for, WindowOpened, ai_open_trust_window-WindowOpened,
}
use xlpod.Ai.Session.{get_session}
use xlpod.Ai.Chat.Rounds.{Declined, Spoken, ai_chat-Spoken}
use xlpod.Ai.Chat.Tasks.{begin_chat, resume}
use xlpod.Ai.Chat.Tasks.Pool.{Executor, fresh, arrive, proceed, other, Reach, start, later}
use xlpod.Ai.Chat.Tasks.Kept.{Kept, Reach-Kept}
use xlpod.Ai.Chat.Tasks.Bound.{may_call_all, Reach-budgeted}
use xlpod.Ai.Chat.Growth.{Grows}
use xlpod.Ai.Chat.Stores.{ai_chat-Grows, MayServe}
use xlpod.Routes.Handshake
use xlpod.Middleware.{audit_wrap}
use xlpod.Routes.Table.{Call, run_layers, layers, endpoint_of, handle, router}
use xlpod.Tests.Fixtures.{request, rec, env, session, world, question}

-- A call of Python that the open trust window covers.
run_one-gated_example :
    Refused world (run_one env session false "run_python" "2+2" world)
    ⊎ Ran env session false "run_python" "2+2" world
        (run_one env session false "run_python" "2+2" world)
run_one-gated_example = run_one-gated env session false "run_python" "2+2" world

ai_chat-Calls_example :
    Calls 8 world (after (ai_chat env question world))
    × (((after (ai_chat env question world)).trace ≡ []) ⊎ Admitted env question world)
ai_chat-Calls_example = ai_chat-Calls env question world

abbrev uses : List ToolUse
uses =
    record { id = "t1"; name = "run_python"; input = "2+2" }
    ∷ record { id = "t2"; name = "unknown"; input = "{}" }
    ∷ []

ai_set_provider_key-trace_example :
    let request = key_request "ai-key://anthropic" in
    let last = (after (ai_set_provider_key env "anthropic" "k" world)).trace in
    (last ≡ [])
    ⊎ (last ≡ ai_asked request false ∷ [])
    ⊎ ((session.provider ≡ "anthropic")
        × (last ≡ key_written "anthropic_api_key" "k" ∷ ai_asked request true ∷ []))
ai_set_provider_key-trace_example = ai_set_provider_key-trace env "anthropic" "k" world

ai_open_session-Opened_example : Opened env rec none none world
ai_open_session-Opened_example = ai_open_session-Opened env rec none none world

ai_open_trust_window-WindowOpened_example :
    let last = after (ai_open_trust_window env "7" ("fs_read" ∷ []) 60 world) in
    ((last.windows ≡ world.windows)
      × ((last.trace ≡ [])
          ⊎ (last.trace ≡ ai_asked (dialog_for env ("fs_read" ∷ []) 60) false ∷ [])))
    ⊎ WindowOpened env "7" ("fs_read" ∷ []) 60 (dialog_for env ("fs_read" ∷ []) 60) world last
ai_open_trust_window-WindowOpened_example =
    ai_open_trust_window-WindowOpened env "7" ("fs_read" ∷ []) 60 world

ai_chat-Grows_example :
    Grows (MayServe env question world) world (after (ai_chat env question world))
ai_chat-Grows_example = ai_chat-Grows env question world

ai_chat-Spoken_example :
    Declined env question session world (ai_chat env question world)
    ⊎ Spoken env question session world (ai_chat env question world)
unfolding get_session lookup
ai_chat-Spoken_example = ai_chat-Spoken env session question world refl refl

-- Two chats of one session, of which the second has asked the provider, and the first then too.
abbrev idle : Executor
idle = record { world = world; tasks = [] }

abbrev both : Executor
both = record {
  world = (begin_chat env question (begin_chat env question world).0).0;
  tasks =
      (begin_chat env question (begin_chat env question world).0).1
      ∷ (begin_chat env question world).1
      ∷ [];
}

abbrev first_asked : Executor
first_asked = record {
  world = (resume env (begin_chat env question world).1 both.world).0;
  tasks =
      (begin_chat env question (begin_chat env question world).0).1
      ∷ (resume env (begin_chat env question world).1 both.world).1
      ∷ [];
}

interleaved :
    Reach env idle (0 + fresh world + fresh (begin_chat env question world).0 + 0) first_asked
interleaved = later (later (later start (arrive question)) (arrive question)) (
    proceed ((begin_chat env question (begin_chat env question world).0).1 ∷ []) []
      (begin_chat env question world).1 refl)

-- A request to `/health` is served while both chats wait.
abbrev checked : Executor
checked = record first_asked {
  world = (router env "0.1.0" Call.health request first_asked.world).1;
}

uncalled : calls checked.world.trace ≡ calls first_asked.world.trace
unfolding router audit_wrap run_layers layers endpoint_of handle resume Handshake.health
uncalled = refl

with_health :
    Reach env idle (0 + fresh world + fresh (begin_chat env question world).0 + 0 + 0) checked
with_health = later interleaved (other checked.world (record { silent = uncalled }))

Reach-Kept_example : Kept env idle checked
unfolding interleaved with_health
Reach-Kept_example =
    Reach-Kept env refl with_health
      ((((tt, tt), tt), tt), ("0.1.0", Call.health, request, tt, refl))

Reach-budgeted_example :
    calls first_asked.world.trace + may_call_all first_asked.tasks
    ≤ calls idle.world.trace
      + may_call_all idle.tasks
      + 8 * (0 + fresh world + fresh (begin_chat env question world).0 + 0)
Reach-budgeted_example = Reach-budgeted env interleaved
