-- ===== src/Results.antt =====
-- The figures of a finished backtest: `StatsGrid`, `PnLChart` and the rows of `TradesTable` in
-- web/components/BacktestResult.tsx. Amounts are exact; `sort` is the sort of the platform, which
-- orders the trades by their time.
pub mod Curve
mod Tests
use polyquantlab.Common.{
  ℕ, zero, suc, ltb, String, Bool, true, false, not, List, [], ◌∷◌, Option, none, some, any, ◌&&◌,
  take, if◌then◌else◌,
}
use polyquantlab.Paper.{
  Amount, nothing, add, opposite, sub, more, or_nothing, larger, ProfitFactor, profit_factor,
}

-- The fields of a trade that are read; an old result has no P&L, and maybe no fees.
pub record Trade : Type 0 where
  pub ts : ℕ
  pub is_yes : Bool
  pub size : Amount
  pub pnl : Option Amount
  pub fees : Option Amount

abbrev pub prepend : Option Amount → List Amount → List Amount
prepend none rest = rest
prepend (some a) rest = a ∷ rest

-- `tradePnls`
abbrev pub trade_pnls : List Trade → List Amount
trade_pnls [] = []
trade_pnls (t ∷ ts) = prepend t.pnl (trade_pnls ts)

-- `Math.max(…)` and `Math.min(…)` of the amounts, if there are any.
abbrev pub smaller : Amount → Amount → Amount
smaller a b = if more b a then a else b

abbrev pub best_from : Amount → List Amount → Amount
best_from a [] = a
best_from a (b ∷ bs) = best_from (larger b a) bs

abbrev pub worst_from : Amount → List Amount → Amount
worst_from a [] = a
worst_from a (b ∷ bs) = worst_from (smaller b a) bs

abbrev pub best : List Amount → Option Amount
best [] = none
best (a ∷ rest) = some (best_from a rest)

abbrev pub worst : List Amount → Option Amount
worst [] = none
worst (a ∷ rest) = some (worst_from a rest)

-- The quotient `calmar` by its parts, if there is a drawdown.
abbrev pub is_nothing : Amount → Bool
is_nothing a = not (more a nothing) && not (more nothing a)

abbrev pub calmar : (total_pnl max_drawdown : Amount) → Option (Amount × Amount)
calmar total_pnl max_drawdown =
    if is_nothing max_drawdown
    then none
    else some
        (total_pnl, (if more nothing max_drawdown then opposite max_drawdown else max_drawdown))

pub record Stats : Type 0 where
  pub best_trade : Option Amount
  pub worst_trade : Option Amount
  pub factor : ProfitFactor
  pub calmar_ratio : Option (Amount × Amount)

-- `StatsGrid`
abbrev pub stats_grid : (total_pnl max_drawdown : Amount) → List Trade → Stats
stats_grid total_pnl max_drawdown ts = record {
  best_trade = best (trade_pnls ts);
  worst_trade = worst (trade_pnls ts);
  factor = profit_factor (trade_pnls ts);
  calmar_ratio = calmar total_pnl max_drawdown;
}

abbrev pub has_amount : Option Amount → Bool
has_amount none = false
has_amount (some a) = true

-- `hasPnl`
abbrev pub has_pnl : List Trade → Bool
has_pnl ts = any (λ t. has_amount t.pnl) ts

-- What a trade adds to the curve: its net P&L, or in an old result its signed size.
abbrev pub signed_if : Bool → Amount → Amount
signed_if true a = a
signed_if false a = opposite a

abbrev pub step_of : (has : Bool) → Trade → Amount
step_of true t = sub (or_nothing t.pnl) (or_nothing t.fees)
step_of false t = signed_if t.is_yes t.size

-- `cum`, with the sum so far.
unfoldable pub cumulate : (has : Bool) → (acc : Amount) → List Trade → List Amount
cumulate has acc [] = []
cumulate has acc (t ∷ ts) = add acc (step_of has t) ∷ cumulate has (add acc (step_of has t)) ts

-- The values that `PnLChart` draws; with one trade or none it has no chart.
abbrev pub chart_of : (List Trade → List Trade) → List Trade → Option (List Amount)
chart_of sort [] = none
chart_of sort (t ∷ []) = none
chart_of sort (t ∷ u ∷ ts) =
    some (cumulate (has_pnl (sort (t ∷ u ∷ ts))) nothing (sort (t ∷ u ∷ ts)))

-- The net amount in a row of `TradesTable`, of the first 200 trades.
abbrev pub net_if : Option Amount → Option Amount → Option Amount
net_if none fees = none
net_if (some a) fees = some (sub a (or_nothing fees))

abbrev pub nets_of : List Trade → List (Option Amount)
nets_of [] = []
nets_of (t ∷ ts) = net_if t.pnl t.fees ∷ nets_of ts

abbrev pub table_nets : List Trade → List (Option Amount)
table_nets ts = nets_of (take 200 ts)
