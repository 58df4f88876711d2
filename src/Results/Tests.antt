-- ===== src/Results/Tests.antt =====
-- The figures of a finished backtest on concrete trades.
use polyquantlab.Common.{◌≡◌, refl, true, List, [], ◌∷◌, none, some, ℕ}
use polyquantlab.Paper.{Amount, nothing}
use polyquantlab.Results.{Trade, best, worst, trade_pnls, cumulate, chart_of, calmar}

abbrev trade_at : ℕ → Amount → Trade
trade_at time a = record {
  ts = time;
  is_yes = true;
  size = nothing;
  pnl = some a;
  fees = some (record { gain = 1; loss = 0 });
}

abbrev early : Trade
early = trade_at 1 (record { gain = 7; loss = 0 })

abbrev late : Trade
late = trade_at 2 (record { gain = 0; loss = 3 })

extremes :
    (best (trade_pnls (late ∷ early ∷ [])) ≡ some (record { gain = 7; loss = 0 }))
    × (worst (trade_pnls (late ∷ early ∷ [])) ≡ some (record { gain = 0; loss = 3 }))
extremes = (refl, refl)

no_calmar : calmar early.size nothing ≡ none
no_calmar = refl

abbrev by_time : List Trade → List Trade
by_time ts = early ∷ late ∷ []

-- 7 less 3, and a fee of 1 each.
ends_at_two :
    chart_of by_time (late ∷ early ∷ [])
    ≡ some (record { gain = 7; loss = 1 } ∷ record { gain = 7; loss = 5 } ∷ [])
unfolding cumulate
ends_at_two = refl
