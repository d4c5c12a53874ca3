-- ===== src/Ai/Cost/Budget.antt =====
-- The daily budget of launcher/xlpod-server/src/ai/cost.rs against the sum of all recorded costs.
use xlpod.Common.{
  ℕ, ◌+◌, ◌*◌, ◌/◌, ◌^◌, ◌≤◌, ◌<◌, ◌≡◌, ◌↔◌, refl, true, String, List, [], ◌∷◌, none, some, lookup,
  insert, text_eq, pair_eq, arith,
}
use xlpod.Ai.Types.{Usage}
use xlpod.Ai.Cost.{
  CostLedger, CostEntry, Today, price_for, cost_for, row_or_new, record_cost, sum_micros,
  today_total_micros, over_budget,
}

-- The exact sum over the rows.
abbrev pub spent : Today → ℕ
spent [] = 0
spent ((k, e) ∷ rows) = e.usd_micros + spent rows

sum_micros-eq-spent : (rows : Today) → spent rows < 2 ^ 64 → sum_micros rows ≡ spent rows
unfolding sum_micros
sum_micros-eq-spent [] h = refl
sum_micros-eq-spent ((k, e) ∷ rows) h = omega (arith, sum_micros-eq-spent rows (omega arith))

-- The amount on a model's row, zero if it has none.
abbrev amount : String × String → Today → ℕ
amount key rows = elim (lookup key rows) [ none ↦ 0 | some old ↦ old.usd_micros ]

spent-insert :
    (key : String × String) (row : CostEntry) (rows : Today)
    → spent (insert key row rows) + amount key rows ≡ spent rows + row.usd_micros
unfolding insert lookup
spent-insert key row [] = omega arith
spent-insert key row ((j, e) ∷ rows) = ground (arith, spent-insert key row rows)

amount-le-spent : (key : String × String) (rows : Today) → amount key rows ≤ spent rows
unfolding lookup
amount-le-spent key [] = omega arith
amount-le-spent key ((j, e) ∷ rows) = ground (arith, amount-le-spent key rows)

row_or_new-amount :
    (now : ℕ) (provider model : String) (rows : Today)
    → (row_or_new now provider model rows).usd_micros ≡ amount (provider, model) rows
unfolding row_or_new
row_or_new-amount now provider model rows = ground arith

-- One call raises the sum by its cost, while the sum fits into 64 bits.
spent-record_cost :
    (now : ℕ) (provider model : String) (usage : Usage) (ledger : CostLedger)
    → spent ledger.today + cost_for provider model usage < 2 ^ 64
    → spent (record_cost now provider model usage ledger).1.today
      ≡ spent ledger.today + cost_for provider model usage
unfolding record_cost
spent-record_cost now provider model usage ledger fits = omega (
  arith,
  spent-insert (provider, model) _ ledger.today,
  amount-le-spent (provider, model) ledger.today,
  row_or_new-amount now provider model ledger.today,
)

-- A provider turn that is charged: when, to whom, and what it used.
pub record Charge : Type 0 where
  pub now : ℕ
  pub provider : String
  pub model : String
  pub usage : Usage

-- The ledger after a sequence of charges.
unfoldable pub record_all : List Charge → CostLedger → CostLedger
record_all [] ledger = ledger
record_all (c ∷ cs) ledger = record_all cs (record_cost c.now c.provider c.model c.usage ledger).1

-- What a sequence of charges costs in all.
unfoldable pub total_cost : List Charge → ℕ
total_cost [] = 0
total_cost (c ∷ cs) = cost_for c.provider c.model c.usage + total_cost cs

spent-record_all :
    (cs : List Charge) (ledger : CostLedger)
    → spent ledger.today + total_cost cs < 2 ^ 64
    → spent (record_all cs ledger).today ≡ spent ledger.today + total_cost cs
unfolding record_all total_cost
spent-record_all [] ledger fits = omega arith
spent-record_all (c ∷ cs) ledger fits = omega (
  arith,
  spent-record_all cs (record_cost c.now c.provider c.model c.usage ledger).1,
  spent-record_cost c.now c.provider c.model c.usage ledger,
)

daily_cap-record_all :
    (cs : List Charge) (ledger : CostLedger)
    → (record_all cs ledger).daily_cap_micros ≡ ledger.daily_cap_micros
unfolding record_all record_cost
daily_cap-record_all [] ledger = refl
daily_cap-record_all (c ∷ cs) ledger =
    daily_cap-record_all cs (record_cost c.now c.provider c.model c.usage ledger).1

-- A fresh ledger reports as today's total, after any charges whose costs sum to less than 2 ^ 64,
-- exactly the sum of the costs of all charges since the start, of whatever day, and is over budget
-- exactly when its cap is set and that sum reaches it.
pub budget_exact :
    (cap : ℕ) (cs : List Charge)
    → total_cost cs < 2 ^ 64
    → let ledger = record_all cs (record { lines = []; today = []; daily_cap_micros = cap }) in
      (today_total_micros ledger ≡ total_cost cs)
      × ((over_budget ledger ≡ true) ↔ ((0 < cap) × (cap ≤ total_cost cs)))
unfolding over_budget today_total_micros
budget_exact cap cs fits =
    let start : CostLedger = record { lines = []; today = []; daily_cap_micros = cap } in
    let sum : sum_micros (record_all cs start).today ≡ total_cost cs =
      omega (arith, spent-record_all cs start, sum_micros-eq-spent (record_all cs start).today) in
    (sum, rw (sum, daily_cap-record_all cs start) ((λ h. ground arith), (λ h. ground arith)))

-- While the products fit into 64 bits, the cost of a call is the price of its input tokens plus the
-- price of its output tokens, each rounded down to a whole micro-dollar.
pub cost_for_exact :
    (provider model : String) (usage : Usage)
    → usage.input_tokens * (price_for provider model).input_micros_per_mtok < 2 ^ 64
    → usage.output_tokens * (price_for provider model).output_micros_per_mtok < 2 ^ 64
    → cost_for provider model usage
      ≡ usage.input_tokens * (price_for provider model).input_micros_per_mtok / 1_000_000
        + usage.output_tokens * (price_for provider model).output_micros_per_mtok / 1_000_000
unfolding cost_for
cost_for_exact provider model usage hi ho = omega arith
