-- ===== src/Paper/Tests.antt =====
-- The figures and the verdict on concrete positions.
use polyquantlab.Common.{ℕ, ◌≡◌, refl, ◌+◌, ◌≤◌, String, List, [], ◌∷◌, ◌++◌, Option, none, some}
use mathlib.Core.List.{reverse}
use polyquantlab.Poll.{completed}
use polyquantlab.Paper.{Amount, nothing, Position, max_drawdown, drawdown_loop, wins, losses}
use polyquantlab.Paper.Drawdown.{total}
use polyquantlab.Paper.Largest.{max_drawdown-largest, max_drawdown-reverse, IsLossOfRun}
use polyquantlab.Paper.Totals.{FitTogether, closed_nets-FitTogether}
use polyquantlab.Paper.Verdict.{
  Baseline, hero, comparison, tracking_closely, underperforming, behind,
}
use polyquantlab.Paper.Verdict.Agrees.{Agrees, hero-comparison}
use polyquantlab.Paper.Page.{age_minutes, age_text}

abbrev won_of : ℕ → Amount
won_of n = record { gain = n; loss = 0 }

abbrev lost_of : ℕ → Amount
lost_of n = record { gain = 0; loss = n }

abbrev position_of : Option String → Amount → Position
position_of closed a = record {
  market_id = "m1";
  side = "buy_yes";
  fees = won_of 1;
  opened_at = 0;
  closed_at = closed;
  pnl = some a;
}

abbrev some_positions : List Position
some_positions =
    position_of none nothing
    ∷ position_of (some "t") (won_of 5)
    ∷ position_of (some "t") (lost_of 3)
    ∷ []

abbrev some_trades : List Amount
some_trades = won_of 10 ∷ lost_of 5 ∷ won_of 1 ∷ lost_of 4 ∷ won_of 3 ∷ []

-- From 10 down to 2 is a drawdown of 8.
drawn_down : (max_drawdown some_trades).gain ≡ (max_drawdown some_trades).loss + 8
unfolding max_drawdown drawdown_loop
drawn_down = refl

one_win : (wins some_positions ≡ 1) × (losses some_positions ≡ 1)
one_win = (refl, refl)

max_drawdown-largest_example :
    ((total (lost_of 5 ∷ won_of 1 ∷ [])).loss
        + (max_drawdown
            ((won_of 10 ∷ []) ++ ((lost_of 5 ∷ won_of 1 ∷ []) ++ (lost_of 4 ∷ [])))).loss
      ≤ (total (lost_of 5 ∷ won_of 1 ∷ [])).gain
        + (max_drawdown
            ((won_of 10 ∷ []) ++ ((lost_of 5 ∷ won_of 1 ∷ []) ++ (lost_of 4 ∷ [])))).gain)
    × IsLossOfRun
        ((won_of 10 ∷ []) ++ ((lost_of 5 ∷ won_of 1 ∷ []) ++ (lost_of 4 ∷ [])))
        (max_drawdown ((won_of 10 ∷ []) ++ ((lost_of 5 ∷ won_of 1 ∷ []) ++ (lost_of 4 ∷ []))))
max_drawdown-largest_example =
    max_drawdown-largest (won_of 10 ∷ []) (lost_of 5 ∷ won_of 1 ∷ []) (lost_of 4 ∷ [])

max_drawdown-reverse_example :
    (max_drawdown (reverse some_trades)).gain + (max_drawdown some_trades).loss
    ≡ (max_drawdown some_trades).gain + (max_drawdown (reverse some_trades)).loss
max_drawdown-reverse_example = max_drawdown-reverse some_trades

closed_nets-FitTogether_example : FitTogether some_positions
closed_nets-FitTogether_example = closed_nets-FitTogether some_positions

abbrev a_baseline : Amount → Baseline
a_baseline total = record { status = completed; total_pnl = some total; n_trades = some 10 }

-- A baseline that earned nothing is tracked closely, whatever the live trades lose, while the
-- comparison says that they are behind.
lost_closely :
    (hero (some (lost_of 900)) (some (a_baseline nothing)) 5 0 ≡ tracking_closely)
    × (comparison (some (lost_of 900)) (some (a_baseline nothing)) 5 ≡ behind)
unfolding hero comparison
lost_closely = (refl, refl)

under : hero (some (won_of 1)) (some (a_baseline (won_of 100))) 5 0 ≡ underperforming
unfolding hero
under = refl

hero-comparison_example :
    Agrees
      (won_of 1)
      5
      (some (a_baseline (won_of 100)))
      (hero (some (won_of 1)) (some (a_baseline (won_of 100))) 5 0)
      (comparison (some (won_of 1)) (some (a_baseline (won_of 100))) 5)
hero-comparison_example = hero-comparison (some (won_of 1)) (some (a_baseline (won_of 100))) 5 0

hours : age_text (age_minutes 7200000 some_positions) ≡ "2h ago"
hours = refl
