-- ===== src/Grid.antt =====
-- The grid of a sweep: the plateau that web/components/SweepResult.tsx marks, for one metric, and
-- the estimate of the time left. Values are exact: the rounding of floating point is left out.
pub mod Peak
pub mod Plateau
mod Tests
use polyquantlab.Common.{
  ℕ, zero, suc, ◌+◌, ◌-◌, ◌*◌, ◌/◌, max, leb, ltb, ◌&&◌, Bool, true, false, not, List, [], ◌∷◌,
  ◌++◌, Option, none, some, get_elem?, length, String, concat, show_nat,
}
use polyquantlab.Paper.{Amount, opposite, more}
use polyquantlab.Paper.Verdict.{scale}
use polyquantlab.Poll.{JobParams}

pub data Metric : Type 0 where
  net_pnl sharpe win_rate max_drawdown n_trades : Metric

-- `METRICS`
abbrev pub higher_is_better : Metric → Bool
higher_is_better max_drawdown = false
higher_is_better _ = true

-- A cell for the metric: its value, unless that is no finite number, and whether it has an error.
pub record SweepCell : Type 0 where
  pub value : Option Amount
  pub error : Bool

-- `v * dir`
abbrev pub score : Bool → Amount → Amount
score true v = v
score false v = opposite v

-- `if (score > best) best = score`; `none` is -Infinity.
abbrev pub better_if : Bool → Amount → Amount → Option Amount
better_if true s b = some s
better_if false s b = some b

abbrev pub better : Option Amount → Amount → Option Amount
better none s = some s
better (some b) s = better_if (more s b) s b

abbrev pub better_cell : Bool → Option Amount → Option Amount → Option Amount
better_cell up best none = best
better_cell up best (some v) = better best (score up v)

abbrev pub peak_row : Bool → Option Amount → List SweepCell → Option Amount
peak_row up best [] = best
peak_row up best (c ∷ cs) = peak_row up (better_cell up best c.value) cs

abbrev pub peak_rows : Bool → Option Amount → List (List SweepCell) → Option Amount
peak_rows up best [] = best
peak_rows up best (r ∷ rs) = peak_rows up (peak_row up best r) rs

-- `peak`
unfoldable pub peak : Bool → List (List SweepCell) → Option Amount
peak up cells = peak_rows up none cells

-- `grid[y]?.[x]`
abbrev pub in_row : Option (List SweepCell) → ℕ → Option SweepCell
in_row none x = none
in_row (some r) x = get_elem? r x

abbrev pub cell_at : List (List SweepCell) → ℕ → ℕ → Option SweepCell
cell_at cells y x = in_row (get_elem? cells y) x

-- `v * dir >= peak * 0.9`
abbrev pub near : Amount → Amount → Bool
near p s = not (more (scale 9 p) (scale 10 s))

abbrev pub value_passes : Bool → Amount → Option Amount → Bool
value_passes up p none = false
value_passes up p (some v) = near p (score up v)

abbrev pub cell_passes : Bool → Amount → Option SweepCell → Bool
cell_passes up p none = false
cell_passes up p (some c) = not c.error && value_passes up p c.value

abbrev pub passes : Bool → Amount → List (List SweepCell) → ℕ → ℕ → Bool
passes up p cells y x = cell_passes up p (cell_at cells y x)

-- The neighbour before, which the first has not.
abbrev pub passes_up : Bool → Amount → List (List SweepCell) → ℕ → ℕ → Bool
passes_up up p cells zero x = false
passes_up up p cells (suc y) x = passes up p cells y x

abbrev pub passes_left : Bool → Amount → List (List SweepCell) → ℕ → ℕ → Bool
passes_left up p cells y zero = false
passes_left up p cells y (suc x) = passes up p cells y x

abbrev pub bit : Bool → ℕ
bit true = 1
bit false = 0

abbrev pub neighbour_hits : Bool → Amount → List (List SweepCell) → ℕ → ℕ → ℕ
neighbour_hits up p cells y x =
    bit (passes_up up p cells y x)
    + bit (passes up p cells (suc y) x)
    + bit (passes_left up p cells y x)
    + bit (passes up p cells y (suc x))

abbrev pub marks : Bool → Amount → List (List SweepCell) → ℕ → ℕ → Bool
marks up p cells y x = passes up p cells y x && leb 2 (neighbour_hits up p cells y x)

abbrev pub add_if : Bool → ℕ × ℕ → List (ℕ × ℕ) → List (ℕ × ℕ)
add_if true c rest = c ∷ rest
add_if false c rest = rest

-- The two loops, over the cells of a row from `x` on and over the rows from `y` on.
abbrev pub plateau_row :
    Bool → Amount → List (List SweepCell) → (y x : ℕ) → List SweepCell → List (ℕ × ℕ)
plateau_row up p cells y x [] = []
plateau_row up p cells y x (c ∷ cs) =
    add_if (marks up p cells y x) (y, x) (plateau_row up p cells y (suc x) cs)

abbrev pub plateau_rows :
    Bool → Amount → List (List SweepCell) → (y : ℕ) → List (List SweepCell) → List (ℕ × ℕ)
plateau_rows up p cells y [] = []
plateau_rows up p cells y (r ∷ rs) =
    plateau_row up p cells y 0 r ++ plateau_rows up p cells (suc y) rs

abbrev pub plateau_of : Bool → Option Amount → List (List SweepCell) → List (ℕ × ℕ)
plateau_of up none cells = []
plateau_of up (some p) cells = plateau_rows up p cells 0 cells

-- `plateau`: the positions (y, x) of the cells that are marked.
unfoldable pub plateau : Metric → List (List SweepCell) → List (ℕ × ℕ)
plateau m cells = plateau_of (higher_is_better m) (peak (higher_is_better m) cells) cells

-- The estimate of a running sweep: a number that is absent or 0 counts as the default.
abbrev pub or_default : Option ℕ → ℕ → ℕ
or_default none d = d
or_default (some zero) d = d
or_default (some (suc n)) d = suc n

abbrev pub cell_count : JobParams → ℕ
cell_count p = or_default p.x_steps 1 * or_default p.y_steps 1

abbrev pub expected_ms : JobParams → ℕ
expected_ms p = max 5000 (cell_count p * or_default p.market_limit 100 * 50)

-- The label of a sweep that runs since `started`; the seconds are rounded up.
unfoldable pub running_label : JobParams → (started now : ℕ) → String
running_label p started now = concat (
    "Running "
    ∷ show_nat (cell_count p)
    ∷ " cells × "
    ∷ show_nat (or_default p.market_limit 100)
    ∷ " markets · ~"
    ∷ show_nat ((expected_ms p + started - now + 999) / 1000)
    ∷ "s remaining"
    ∷ [])
