-- ===== src/Ai/Cost.antt =====
-- launcher/xlpod-server/src/ai/cost.rs: prices, the ledger of today's spend and the daily budget.
-- Amounts are `u64` micro-dollars: products and sums of one row saturate, the sum over the rows
-- wraps as in a release build. The time of a record is an argument.
pub mod Budget
use xlpod.Common.{
  ℕ, ◌+◌, ◌-◌, ◌*◌, ◌/◌, ◌%◌, ◌^◌, ◌<◌, Bool, ◌&&◌, String, List, [], ◌∷◌, ◌++◌, Option, none, some,
  lookup, insert, text_eq, pair_eq, min, ltb, leb, if◌then◌else◌, ◌==◌, strip_prefix,
}
use xlpod.Ai.Types.{Usage}

-- `DEFAULT_DAILY_BUDGET_MICROS`.
abbrev pub default_daily_budget_micros : ℕ
default_daily_budget_micros = 5_000_000

abbrev pub u64_max : ℕ
u64_max = 2 ^ 64 - 1

-- `u64::saturating_mul` and `u64::saturating_add`.
abbrev pub saturating_mul : ℕ → ℕ → ℕ
saturating_mul a b = min (a * b) u64_max

abbrev pub saturating_add : ℕ → ℕ → ℕ
saturating_add a b = min (a + b) u64_max

-- `struct PriceTable`.
pub record PriceTable : Type 0 where
  pub input_micros_per_mtok : ℕ
  pub output_micros_per_mtok : ℕ

abbrev prices : ℕ → ℕ → PriceTable
prices i o = record { input_micros_per_mtok = i; output_micros_per_mtok = o }

-- `m.starts_with(p)`.
abbrev starts_with : String → String → Bool
starts_with m p = elim (strip_prefix p m) [ none ↦ Bool.false | some rest ↦ Bool.true ]

-- `price_for`.
unfoldable pub price_for : String → String → PriceTable
price_for provider model =
    if provider == "anthropic" && starts_with model "claude-opus-4"
    then prices 15_000_000 75_000_000
    else if provider == "anthropic" && starts_with model "claude-sonnet-4"
    then prices 3_000_000 15_000_000
    else if provider == "anthropic"
    then prices 3_000_000 15_000_000
    else prices 0 0

-- `cost_for`.
unfoldable pub cost_for : String → String → Usage → ℕ
cost_for provider model usage =
    let p = price_for provider model in
    let input_micros = saturating_mul usage.input_tokens p.input_micros_per_mtok / 1_000_000 in
    let output_micros = saturating_mul usage.output_tokens p.output_micros_per_mtok / 1_000_000 in
    saturating_add input_micros output_micros

-- `struct CostEntry`.
pub record CostEntry : Type 0 where
  pub ts_ms : ℕ
  pub provider : String
  pub model : String
  pub input_tokens : ℕ
  pub output_tokens : ℕ
  pub usd_micros : ℕ

abbrev pub Today : Type 0
Today = List ((String × String) × CostEntry)

-- `struct CostInner`: the lines handed to the ledger's file, today's rows and the cap.
pub record CostLedger : Type 0 where
  pub lines : List CostEntry
  pub today : Today
  pub daily_cap_micros : ℕ

-- The row of a model before its first call: `or_insert_with`.
row_or_new : ℕ → String → String → Today → CostEntry
row_or_new now provider model today = elim (lookup (provider, model) today) [
  | some row ↦ row
  | none ↦ record {
    ts_ms = now;
    provider = provider;
    model = model;
    input_tokens = 0;
    output_tokens = 0;
    usd_micros = 0;
  }
]

-- `CostLedger::record`, at the time `now`: the cost and the new ledger.
unfoldable pub record_cost : ℕ → String → String → Usage → CostLedger → ℕ × CostLedger
unfolding row_or_new
record_cost now provider model usage ledger = (
  usd_micros,
  record ledger {
    lines = ledger.lines ++ entry ∷ [];
    today = insert (provider, model) row ledger.today;
  },
)
  where
    usd_micros : ℕ
    usd_micros = cost_for provider model usage

    entry : CostEntry
    entry = record {
      ts_ms = now;
      provider = provider;
      model = model;
      input_tokens = usage.input_tokens;
      output_tokens = usage.output_tokens;
      usd_micros = usd_micros;
    }

    old : CostEntry
    old = row_or_new now provider model ledger.today

    row : CostEntry
    row = record old {
      input_tokens = saturating_add old.input_tokens usage.input_tokens;
      output_tokens = saturating_add old.output_tokens usage.output_tokens;
      usd_micros = saturating_add old.usd_micros usd_micros;
    }

-- The sum over the rows, `u64` in a release build.
unfoldable pub sum_micros : Today → ℕ
sum_micros [] = 0
sum_micros ((k, e) ∷ rows) = (e.usd_micros + sum_micros rows) % 2 ^ 64

-- `CostLedger::today_total_micros`.
unfoldable pub today_total_micros : CostLedger → ℕ
today_total_micros ledger = sum_micros ledger.today

-- `CostLedger::over_budget`.
unfoldable pub over_budget : CostLedger → Bool
over_budget ledger =
    ltb 0 ledger.daily_cap_micros && leb ledger.daily_cap_micros (today_total_micros ledger)

-- `struct CostRollup`; the date is the caller's.
pub record CostRollup : Type 0 where
  pub date : String
  pub total_usd_micros : ℕ
  pub by_model : List CostEntry

abbrev pub values : Today → List CostEntry
values [] = []
values ((k, e) ∷ rows) = e ∷ values rows

-- `CostLedger::rollup`.
unfoldable pub rollup : String → CostLedger → CostRollup
rollup date ledger = record {
  date = date;
  total_usd_micros = sum_micros ledger.today;
  by_model = values ledger.today;
}
