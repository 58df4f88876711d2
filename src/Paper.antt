-- ===== src/Paper.antt =====
-- The page of a paper strategy: the figures that web/components/PaperStrategyDetail.tsx computes
-- from the positions, and its verdict. Amounts are exact: the rounding of floating point is left out.
pub mod Drawdown
pub mod Largest
pub mod Gross
pub mod Totals
pub mod Verdict
pub mod Page
pub mod Lists
mod Tests
use polyquantlab.Common.{
  ℕ, zero, suc, ◌+◌, ◌-◌, ◌*◌, ltb, ◌==◌, ◌&&◌, Bool, true, false, not, List, [], ◌∷◌, Option, none,
  some, String, keep_if, length, map, if◌then◌else◌,
}

-- The amount `gain` - `loss`, in a unit that all of them share.
pub record Amount : Type 0 where
  pub gain : ℕ
  pub loss : ℕ

abbrev pub nothing : Amount
nothing = record { gain = 0; loss = 0 }

abbrev pub add : Amount → Amount → Amount
add a b = record { gain = a.gain + b.gain; loss = a.loss + b.loss }

abbrev pub opposite : Amount → Amount
opposite a = record { gain = a.loss; loss = a.gain }

abbrev pub sub : Amount → Amount → Amount
sub a b = add a (opposite b)

-- `a > b`
abbrev pub more : Amount → Amount → Bool
more a b = ltb (b.gain + a.loss) (a.gain + b.loss)

-- `Math.abs(a)`
abbrev pub absolute : Amount → Amount
absolute a = if more nothing a then opposite a else a

-- The fields of a position that the figures read.
pub record Position : Type 0 where
  pub market_id : String
  pub side : String
  pub fees : Amount
  pub opened_at : ℕ
  pub closed_at : Option String
  pub pnl : Option Amount

abbrev pub is_open : Option String → Bool
is_open none = true
is_open (some t) = false

abbrev pub or_nothing : Option Amount → Amount
or_nothing none = nothing
or_nothing (some a) = a

-- `(p.pnl ?? 0) - p.fees`
abbrev pub net_of : Position → Amount
net_of p = sub (or_nothing p.pnl) p.fees

abbrev pub open_positions : List Position → List Position
open_positions ps = keep_if (λ p. is_open p.closed_at) ps

abbrev pub closed_positions : List Position → List Position
closed_positions ps = keep_if (λ p. not (is_open p.closed_at)) ps

abbrev pub wins : List Position → ℕ
wins ps = length (keep_if (λ p. more (net_of p) nothing) (closed_positions ps))

abbrev pub losses : List Position → ℕ
losses ps = length (closed_positions ps) - wins ps

-- `closedNetPnls`
abbrev pub closed_nets : List Position → List Amount
closed_nets ps = map net_of (closed_positions ps)

-- `.reduce((a, b) => a + b, 0)`
abbrev pub sum_from : Amount → List Amount → Amount
sum_from a [] = a
sum_from a (b ∷ bs) = sum_from (add a b) bs

abbrev pub gross_wins : List Amount → Amount
gross_wins ns = sum_from nothing (keep_if (λ n. more n nothing) ns)

abbrev pub gross_losses : List Amount → Amount
gross_losses ns = absolute (sum_from nothing (keep_if (λ n. more nothing n) ns))

-- `profitFactor`: none, infinite, or the quotient of two amounts.
pub data ProfitFactor : Type 0 where
  no_factor infinite : ProfitFactor
  quotient : (wins losses : Amount) → ProfitFactor

abbrev pub profit_factor : List Amount → ProfitFactor
profit_factor ns =
    if more (gross_losses ns) nothing
    then quotient (gross_wins ns) (gross_losses ns)
    else if more (gross_wins ns) nothing
    then infinite
    else no_factor

abbrev pub larger : Amount → Amount → Amount
larger a b = if more a b then a else b

-- The loop of `maxDrawdown`, with the running sum, the running peak and the drawdown so far.
unfoldable pub drawdown_loop : (sum peak drawdown : Amount) → List Amount → Amount
drawdown_loop sum peak drawdown [] = drawdown
drawdown_loop sum peak drawdown (n ∷ ns) =
    let sum : Amount = add sum n in
    let peak : Amount = larger sum peak in
    drawdown_loop sum peak (larger (sub peak sum) drawdown) ns

unfoldable pub max_drawdown : List Amount → Amount
max_drawdown ns = drawdown_loop nothing nothing nothing ns
