-- ===== src/Forms/Sweep/Edits.antt =====
-- What the user does in the form of a sweep: the handlers of its fields.
use polyquantlab.Common.{
  ℕ, zero, suc, ◌+◌, ◌-◌, ◌*◌, ◌/◌, min, max, String, str_eq, Bool, true, false, not, List, Option,
  none, some, keep_if, find, ℤ, pos, negate,
}
use polyquantlab.Strategy.Params.{Number, Ticker}
use polyquantlab.Forms.{StrategyType}
use polyquantlab.Forms.Inputs.{PinEdit, edit_pin}
use polyquantlab.Forms.Sweep.{ParamSpec, sweepable_params, AxisState, SweepForm, switch_strategy}

abbrev power_of_ten : ℕ → ℕ
power_of_ten zero = 1
power_of_ten (suc n) = 10 * power_of_ten n

-- `Math.round`, which rounds half a unit up, also below zero.
abbrev round_parts : Bool → ℕ → ℕ → ℤ
round_parts false digits ten = pos ((2 * digits + ten) / (2 * ten))
round_parts true digits ten = negate ((2 * digits + (ten - 1)) / (2 * ten))

abbrev pub round : Number → ℤ
round n = round_parts n.minus n.digits (power_of_ten n.places)

-- A number as `parseFloat` and `parseInt` give it; `none` is `NaN`.
pub data AxisEdit : Type 0 where
  choose_param : String → AxisEdit
  set_from set_to set_steps : Option Number → AxisEdit

-- `AxisFieldset`
abbrev pub with_param : Option ParamSpec → AxisState → AxisState
with_param none a = a
with_param (some p) a = record {
  param = p.key;
  start = p.default_start;
  end = p.default_end;
  steps = a.steps;
}

abbrev pub with_start : Option Number → AxisState → AxisState
with_start none a = a
with_start (some n) a = record { param = a.param; start = n; end = a.end; steps = a.steps }

abbrev pub with_end : Option Number → AxisState → AxisState
with_end none a = a
with_end (some n) a = record { param = a.param; start = a.start; end = n; steps = a.steps }

abbrev pub with_steps : Option Number → AxisState → AxisState
with_steps none a = a
with_steps (some n) a = record { param = a.param; start = a.start; end = a.end; steps = round n }

unfoldable pub edit_axis : List ParamSpec → AxisEdit → AxisState → AxisState
edit_axis ps (choose_param v) a = with_param (find (λ p. str_eq p.key v) ps) a
edit_axis ps (set_from n) a = with_start n a
edit_axis ps (set_to n) a = with_end n a
edit_axis ps (set_steps n) a = with_steps n a

-- What the user does; the market limit is what `parseInt` gives.
pub data SweepEdit : Type 0 where
  set_ticker : Ticker → SweepEdit
  set_limit : Option ℤ → SweepEdit
  switch : StrategyType → SweepEdit
  set_pin : PinEdit → SweepEdit
  set_enable_y : Bool → SweepEdit
  set_x set_y : AxisEdit → SweepEdit

-- `parseInt(…) || 1`, from below by 1
abbrev at_least_1 : Option ℤ → ℕ
at_least_1 (some (pos n)) = max n 1
at_least_1 _ = 1

unfoldable pub edit_sweep : (max_market_limit : ℕ) → SweepEdit → SweepForm → SweepForm
edit_sweep m (set_ticker t) f = record {
  ticker = t;
  market_limit = f.market_limit;
  strategy_type = f.strategy_type;
  pins = f.pins;
  enable_y = f.enable_y;
  x_axis = f.x_axis;
  y_axis = f.y_axis;
}
edit_sweep m (set_limit n) f = record {
  ticker = f.ticker;
  market_limit = min (at_least_1 n) m;
  strategy_type = f.strategy_type;
  pins = f.pins;
  enable_y = f.enable_y;
  x_axis = f.x_axis;
  y_axis = f.y_axis;
}
edit_sweep m (switch t) f = switch_strategy t f
edit_sweep m (set_pin e) f = record {
  ticker = f.ticker;
  market_limit = f.market_limit;
  strategy_type = f.strategy_type;
  pins = edit_pin e f.pins;
  enable_y = f.enable_y;
  x_axis = f.x_axis;
  y_axis = f.y_axis;
}
edit_sweep m (set_enable_y b) f = record {
  ticker = f.ticker;
  market_limit = f.market_limit;
  strategy_type = f.strategy_type;
  pins = f.pins;
  enable_y = b;
  x_axis = f.x_axis;
  y_axis = f.y_axis;
}
edit_sweep m (set_x e) f = record {
  ticker = f.ticker;
  market_limit = f.market_limit;
  strategy_type = f.strategy_type;
  pins = f.pins;
  enable_y = f.enable_y;
  x_axis = edit_axis (sweepable_params f.strategy_type) e f.x_axis;
  y_axis = f.y_axis;
}
edit_sweep m (set_y e) f = record {
  ticker = f.ticker;
  market_limit = f.market_limit;
  strategy_type = f.strategy_type;
  pins = f.pins;
  enable_y = f.enable_y;
  x_axis = f.x_axis;
  y_axis =
      edit_axis
        (keep_if (λ p. not (str_eq p.key f.x_axis.param)) (sweepable_params f.strategy_type)) e
        f.y_axis;
}
