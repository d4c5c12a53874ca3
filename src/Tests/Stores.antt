-- ===== src/Tests/Stores.antt =====
-- The stores of launcher/xlpod-server and its error codes on concrete inputs.
use xlpod.Common.{
  ◌*◌, ◌≤◌, ◌<◌, ◌≡◌, refl, ◌↔◌, true, nat_eq, text_eq, none, some, List, [], ◌∷◌, length, lookup,
  arith,
}
use xlpod.Auth.{ok, lookup_token, second}
use xlpod.Auth.Store.{lookup_token-ok_iff}
use xlpod.RateLimit.Bound.{in_window, accepted_bound}
use xlpod.RateLimit.Window.{History, accepted, admissions, accepted-eq-admissions}
use xlpod.Ai.Types.{Usage, text, user, ChatMessage}
use xlpod.Ai.TrustWindow.{covers, open_window}
use xlpod.Ai.TrustWindow.Coverage.{covers-open_window}
use xlpod.Ai.Cost.{cost_for, price_for, today_total_micros, over_budget}
use xlpod.Ai.Cost.Budget.{Charge, record_all, total_cost, budget_exact}
use xlpod.Tests.Fixtures.{token, rec, world}

lookup_token-ok_iff_example :
    (lookup_token token (10 * second) world.tokens ≡ ok rec)
    ↔ ((lookup token world.tokens ≡ some rec) × (10 * second < rec.expires))
lookup_token-ok_iff_example = lookup_token-ok_iff token (10 * second) world.tokens rec

-- A look-up two hours after the token has been issued.
abbrev history : History
history = ("a", 1 * second) ∷ ("b", 1 * second) ∷ ("a", 2 * second) ∷ ("a", 5 * second) ∷ []

accepted-eq-admissions_example : accepted "a" [] history ≡ admissions "a" [] history
accepted-eq-admissions_example =
    accepted-eq-admissions "a" history
      (omega arith, (omega arith, (omega arith, (omega arith, tt))))

accepted_bound_example : length (in_window (1 * second) (accepted "a" [] history)) ≤ 100
accepted_bound_example =
    accepted_bound (1 * second) "a" history
      (omega arith, (omega arith, (omega arith, (omega arith, tt))))

covers-open_window_example :
    covers (λ _. 5000) 9 "fs_read" (open_window 6 1000 9 ("fs_read" ∷ []) 60 world.windows).1 ≡ true
unfolding lookup covers
covers-open_window_example =
    covers-open_window 6 1000 5000 9 9 ("fs_read" ∷ []) "fs_read" 60 world.windows refl

abbrev hello : ChatMessage
hello = record { role = user; ts_ms = none; content = text "hello" ∷ [] }

abbrev usage : Usage
usage = record { input_tokens = 1_000_000; output_tokens = 2; cached_input_tokens = none }

abbrev charges : List Charge
charges = record { now = 1; provider = "anthropic"; model = "claude-opus-4-6"; usage = usage } ∷ []

budget_exact_example :
    let ledger =
      record_all charges (record { lines = []; today = []; daily_cap_micros = 5_000_000 }) in
    (today_total_micros ledger ≡ total_cost charges)
    × ((over_budget ledger ≡ true) ↔ ((0 < 5_000_000) × (5_000_000 ≤ total_cost charges)))
unfolding total_cost cost_for price_for
budget_exact_example = budget_exact 5_000_000 charges (omega arith)
