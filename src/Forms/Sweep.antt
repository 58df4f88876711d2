-- ===== src/Forms/Sweep.antt =====
-- The form of a sweep: web/components/SweepForm.tsx.
pub mod Edits
pub mod Sound
use polyquantlab.Common.{
  ℕ, suc, ◌+◌, ◌-◌, ◌*◌, ◌/◌, min, ltb, leb, ◌≡◌, refl, arith, String, str_eq, Bool, true, false,
  not, List, [], ◌∷◌, Option, none, some, concat, show_nat, if◌then◌else◌, keep_if, ℤ, pos, negsuc,
  negate, ◌*ℤ◌, ltbℤ,
}
use polyquantlab.Strategy.Params.{Number, decimal, Ticker, btc}
use polyquantlab.Forms.{
  StrategyType, threshold_entry, mean_reversion, time_before_resolution, Direction, below, Side,
  buy_yes, Spec, Pins, spec_of, Sent, Shown, job_shown,
}

-- A parameter that can be swept, less its label and hint.
pub record ParamSpec : Type 0 where
  pub key : String
  pub default_start : Number
  pub default_end : Number

abbrev param : String → Number → Number → ParamSpec
param k a b = record { key = k; default_start = a; default_end = b }

-- `SWEEPABLE_PARAMS`
abbrev pub sweepable_params : StrategyType → List ParamSpec
sweepable_params threshold_entry =
    param "threshold" (decimal 2 1) (decimal 5 1)
    ∷ param "size_usd" (decimal 5 0) (decimal 50 0)
    ∷ []
sweepable_params mean_reversion =
    param "lookback" (decimal 10 0) (decimal 60 0)
    ∷ param "z_threshold" (decimal 1 0) (decimal 3 0)
    ∷ param "size_usd" (decimal 5 0) (decimal 50 0)
    ∷ []
sweepable_params time_before_resolution =
    param "minutes_before" (decimal 5 0) (decimal 60 0)
    ∷ param "minutes_window" (decimal 1 0) (decimal 10 0)
    ∷ param "size_usd" (decimal 5 0) (decimal 50 0)
    ∷ []

pub record AxisState : Type 0 where
  pub param : String
  pub start : Number
  pub end : Number
  pub steps : ℤ

abbrev pub axis_of : ParamSpec → AxisState
axis_of p = record { param = p.key; start = p.default_start; end = p.default_end; steps = pos 10 }

-- The axes for `params[0]`, which every strategy has, and for `params[1]` where there is one.
abbrev pub first_axis : List ParamSpec → AxisState → AxisState
first_axis [] a = a
first_axis (p ∷ ps) a = axis_of p

abbrev pub second_axis : List ParamSpec → AxisState → AxisState
second_axis (p ∷ q ∷ ps) a = axis_of q
second_axis _ a = a

pub record SweepForm : Type 0 where
  pub ticker : Ticker
  pub market_limit : ℕ
  pub strategy_type : StrategyType
  pub pins : Pins
  pub enable_y : Bool
  pub x_axis : AxisState
  pub y_axis : AxisState

-- The form at first.
abbrev pub initial_form : (max_market_limit : ℕ) → SweepForm
initial_form max_market_limit = record {
  ticker = btc;
  market_limit = min 50 max_market_limit;
  strategy_type = threshold_entry;
  pins = record {
    direction = below;
    side = buy_yes;
    size_usd = decimal 10 0;
    threshold = decimal 3 1;
    lookback = decimal 30 0;
    z_threshold = decimal 2 0;
    minutes_before = decimal 60 0;
    minutes_window = decimal 5 0;
  };
  enable_y = true;
  x_axis = axis_of (param "threshold" (decimal 2 1) (decimal 5 1));
  y_axis = axis_of (param "size_usd" (decimal 5 0) (decimal 50 0));
}

-- `buildBaseSpec`
abbrev pub build_base_spec : SweepForm → Spec
build_base_spec f = spec_of f.strategy_type f.pins

abbrev with_axes : StrategyType → AxisState → AxisState → SweepForm → SweepForm
with_axes t x y f = record {
  ticker = f.ticker;
  market_limit = f.market_limit;
  strategy_type = t;
  pins = f.pins;
  enable_y = f.enable_y;
  x_axis = x;
  y_axis = y;
}

-- `switchStrategy`
unfoldable pub switch_strategy : StrategyType → SweepForm → SweepForm
switch_strategy t f =
    with_axes t (first_axis (sweepable_params t) f.x_axis)
      (second_axis (sweepable_params t) f.y_axis) f

-- `totalCells`
abbrev pub y_steps : Bool → AxisState → ℤ
y_steps true y = y.steps
y_steps false y = pos 1

abbrev pub total_cells : SweepForm → ℤ
total_cells f = f.x_axis.steps *ℤ y_steps f.enable_y f.y_axis

-- The body of the request.
pub record SweepPost : Type 0 where
  pub strategy : Spec
  pub ticker : Ticker
  pub market_limit : ℕ
  pub x_axis : AxisState
  pub y_axis : Option AxisState

abbrev pub sweep_post : SweepForm → SweepPost
sweep_post f = record {
  strategy = build_base_spec f;
  ticker = f.ticker;
  market_limit = f.market_limit;
  x_axis = f.x_axis;
  y_axis = if f.enable_y then some f.y_axis else none;
}

abbrev pub over_limit : Bool → ℕ → Option String
over_limit true max = some (concat ("Your tier caps market_limit at " ∷ show_nat max ∷ "." ∷ []))
over_limit false max = none

abbrev pub over_cells : Bool → ℕ → Option String → Option String
over_cells true max o = some (concat ("Your tier caps sweep at " ∷ show_nat max ∷ " cells." ∷ []))
over_cells false max o = o

-- The guards of `submit` after the first.
unfoldable pub sweep_guard : (max_market_limit max_sweep_cells : ℕ) → SweepForm → Option String
sweep_guard max_market_limit max_sweep_cells f =
    over_cells (ltbℤ (pos max_sweep_cells) (total_cells f)) max_sweep_cells
      (over_limit (ltb max_market_limit f.market_limit) max_market_limit)
