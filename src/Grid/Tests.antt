-- ===== src/Grid/Tests.antt =====
-- The plateau on concrete grids.
use polyquantlab.Common.{ℕ, ◌≡◌, refl, arith, false, List, [], ◌∷◌, some}
use polyquantlab.Grid.{net_pnl, max_drawdown, SweepCell, peak, plateau}
use polyquantlab.Grid.Plateau.{plateau-below_zero}

abbrev won_cell : ℕ → SweepCell
won_cell n = record { value = some (record { gain = n; loss = 0 }); error = false }

-- Two by two cells within 10% of the best, and a spike beside a poor cell.
abbrev square : List (List SweepCell)
square =
    (won_cell 95 ∷ won_cell 100 ∷ won_cell 1 ∷ [])
    ∷ (won_cell 98 ∷ won_cell 92 ∷ won_cell 97 ∷ [])
    ∷ []

square_marked : plateau net_pnl square ≡ (0, 0) ∷ (0, 1) ∷ (1, 0) ∷ (1, 1) ∷ []
unfolding plateau peak
square_marked = refl

-- The same numbers as drawdowns: the best is 1, and no cell is marked.
plateau-below_zero_example : plateau max_drawdown square ≡ []
unfolding peak
plateau-below_zero_example =
    plateau-below_zero max_drawdown square (record { gain = 0; loss = 1 }) refl (omega arith)
