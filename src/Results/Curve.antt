-- ===== src/Results/Curve.antt =====
-- Where the curve of a backtest ends.
use polyquantlab.Common.{
  ℕ, ◌+◌, ◌≤◌, ◌≡◌, Bool, true, false, not, List, [], ◌∷◌, map, last_or, Option, none, some, length,
  keep_if, All,
}
use mathlib.Core.List.{Memᴰ}
use polyquantlab.Paper.{Amount, nothing}
use polyquantlab.Paper.Drawdown.{total}
use polyquantlab.Results.{Trade, prepend, trade_pnls, has_amount}

-- The fees that are there.
abbrev pub trade_fees : List Trade → List Amount
trade_fees [] = []
trade_fees (t ∷ ts) = prepend t.fees (trade_fees ts)

-- The sizes of the trades on one side.
abbrev pub sizes_on : Bool → List Trade → List Amount
sizes_on true ts = map (λ t. t.size) (keep_if (λ t. t.is_yes) ts)
sizes_on false ts = map (λ t. t.size) (keep_if (λ t. not t.is_yes) ts)

abbrev pub end_of : List Amount → Amount
end_of curve = last_or curve nothing

-- The last value is worth one amount less another.
abbrev pub EndsAt : List Amount → (plus minus : Amount) → Type 0
EndsAt curve plus minus =
    (end_of curve).gain + plus.loss + minus.gain ≡ (end_of curve).loss + plus.gain + minus.loss

-- The chart of some trades: none of less than two; where a trade has a P&L, a curve that ends at the
-- sum of the P&Ls less that of the fees; and where none has, one that ends at the sizes on YES less
-- those on NO.
pub data IsChart (ts : List Trade) : Option (List Amount) → Type 0 where
  too_few : length ts ≤ 1 → IsChart ts none
  of_nets :
      {curve : List Amount} {a : Amount} (t : Trade)
      → Memᴰ t ts
      → t.pnl ≡ some a
      → EndsAt curve (total (trade_pnls ts)) (total (trade_fees ts))
      → IsChart ts (some curve)
  of_sizes :
      {curve : List Amount}
      → All (λ t. t.pnl ≡ none) ts
      → EndsAt curve (total (sizes_on true ts)) (total (sizes_on false ts))
      → IsChart ts (some curve)

abbrev sum_of : (Trade → ℕ) → List Trade → ℕ
sum_of f [] = 0
sum_of f (t ∷ ts) = f t + sum_of f ts

abbrev priced : Trade → Bool
priced t = has_amount t.pnl

abbrev sizes : List Trade → List Amount
sizes ts = map (λ t. t.size) ts
