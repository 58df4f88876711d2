-- ===== src/Paper/Totals.antt =====
-- How the figures of the page fit together.
use polyquantlab.Common.{
  ℕ, suc, ◌+◌, ◌≤◌, ◌<◌, ◌≡◌, refl, arith, Bool, true, false, not, List, [], ◌∷◌, cons_if, length,
  length-keep_if, All, if◌then◌else◌,
}
use polyquantlab.Paper.{
  Amount, nothing, more, Position, is_open, open_positions, closed_positions, wins, losses, net_of,
  closed_nets, gross_wins, gross_losses, ProfitFactor, no_factor, infinite, quotient, profit_factor,
}
use polyquantlab.Paper.Drawdown.{total}
use polyquantlab.Paper.Gross.{
  more-true, more-false, sum_from-total, won, lost, total-lost, total-won, gross_losses-worth,
  gross_wins-gross_losses, lost-none, won-none,
}

-- What the profit factor says of the trades: a quotient has a divisor over nothing, an infinite
-- factor has a win and no loss, and without a factor no trade won or lost.
pub data FactorFits (ns : List Amount) : ProfitFactor → Type 0 where
  of_losses :
      (gross_losses ns).loss < (gross_losses ns).gain
      → FactorFits ns (quotient (gross_wins ns) (gross_losses ns))
  of_wins :
      (gross_wins ns).loss < (gross_wins ns).gain
      → All (λ m. m.loss ≤ m.gain) ns
      → FactorFits ns infinite
  of_neither :
      All (λ m. m.loss ≤ m.gain) ns → All (λ m. m.gain ≤ m.loss) ns → FactorFits ns no_factor

no_losses : (ns : List Amount) → more (gross_losses ns) nothing ≡ false → length (lost ns) ≡ 0
no_losses ns e =
    let a = gross_losses-worth ns in
    let b = total-lost ns in let c = more-false (gross_losses ns) e in omega arith

no_wins : (ns : List Amount) → more (gross_wins ns) nothing ≡ false → length (won ns) ≡ 0
no_wins ns e =
    let h = sum_from-total nothing (won ns) in
    let g = h.0 in
    let l = h.1 in let b = total-won ns in let c = more-false (gross_wins ns) e in omega arith

profit_factor_if-FactorFits :
    (b c : Bool) (ns : List Amount)
    → more (gross_losses ns) nothing ≡ b
    → more (gross_wins ns) nothing ≡ c
    → FactorFits ns (
        if b then quotient (gross_wins ns) (gross_losses ns) else if c then infinite else no_factor)
profit_factor_if-FactorFits true c ns e f = of_losses (more-true (gross_losses ns) e)
profit_factor_if-FactorFits false true ns e f =
    of_wins (more-true (gross_wins ns) f) (lost-none ns (no_losses ns e))
profit_factor_if-FactorFits false false ns e f =
    of_neither (lost-none ns (no_losses ns e)) (won-none ns (no_wins ns f))

open-closed_if :
    (b : Bool) (p : Position) (os cs : List Position) (k : ℕ)
    → length os + length cs ≡ k
    → length (cons_if b p os) + length (cons_if (not b) p cs) ≡ suc k
open-closed_if true p os cs k h = omega arith
open-closed_if false p os cs k h = omega arith

open-closed :
    (ps : List Position) → length (open_positions ps) + length (closed_positions ps) ≡ length ps
open-closed [] = refl
open-closed (p ∷ ps) =
    open-closed_if (is_open p.closed_at) p (open_positions ps) (closed_positions ps) (length ps)
      (open-closed ps)

-- The figures of some positions fit together.
pub record FitTogether (ps : List Position) : Type 0 where
  pub positions : length (open_positions ps) + length (closed_positions ps) ≡ length ps
  pub trades : wins ps + losses ps ≡ length (closed_positions ps)
  pub gross :
      (gross_wins (closed_nets ps)).gain
        + (gross_losses (closed_nets ps)).loss
        + (total (closed_nets ps)).loss
      ≡ (gross_wins (closed_nets ps)).loss
        + (gross_losses (closed_nets ps)).gain
        + (total (closed_nets ps)).gain
  pub factor : FactorFits (closed_nets ps) (profit_factor (closed_nets ps))

-- The figures of the page fit together, whatever the positions are: each position is open or closed,
-- the wins and losses are the closed ones, the gross wins less the gross losses are worth the sum of
-- the closed trades after fees, and the profit factor is one of the trades' wins and losses.
pub closed_nets-FitTogether : (ps : List Position) → FitTogether ps
closed_nets-FitTogether ps = record {
  positions = open-closed ps;
  trades =
      let h = length-keep_if (λ p. more (net_of p) nothing) (closed_positions ps) in omega arith;
  gross = gross_wins-gross_losses (closed_nets ps);
  factor = profit_factor_if-FactorFits _ _ (closed_nets ps) refl refl;
}
