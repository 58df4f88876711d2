-- ===== src/Forms/Single.antt =====
-- The form of one backtest: web/components/BacktestForm.tsx. Dates are texts; `to_iso` is
-- `new Date(…).toISOString()`, with `none` where it throws a `RangeError`.
pub mod Sound
use polyquantlab.Common.{
  ℕ, min, max, ltb, String, str_eq, Bool, true, false, Option, none, some, concat, List, [], ◌∷◌,
  show_nat, ℤ, pos, negsuc,
}
use polyquantlab.Strategy.Params.{Number, decimal, Ticker, btc}
use polyquantlab.Strategy.Submit.{or_text, else_text}
use polyquantlab.Forms.{
  StrategyType, threshold_entry, below, buy_yes, Spec, Pins, spec_of, job_shown,
}
use polyquantlab.Forms.Inputs.{PinEdit, edit_pin}

pub record FormState : Type 0 where
  pub ticker : Ticker
  pub market_limit : ℕ
  pub since : String
  pub until : String
  pub strategy_type : StrategyType
  pub pins : Pins

-- `DEFAULTS`, with the market limit under the plan's.
abbrev pub defaults : (max_market_limit : ℕ) → FormState
defaults max_market_limit = record {
  ticker = btc;
  market_limit = min 10 max_market_limit;
  since = "";
  until = "";
  strategy_type = threshold_entry;
  pins = record {
    direction = below;
    side = buy_yes;
    size_usd = decimal 100 0;
    threshold = decimal 3 1;
    lookback = decimal 30 0;
    z_threshold = decimal 2 0;
    minutes_before = decimal 60 0;
    minutes_window = decimal 5 0;
  };
}

-- `buildStrategySpec`
abbrev pub build_strategy_spec : FormState → Spec
build_strategy_spec f = spec_of f.strategy_type f.pins

-- What the user does. A preset button sets both dates, to texts that the clock gives.
pub data FormEdit : Type 0 where
  set_ticker : Ticker → FormEdit
  set_limit : Option ℤ → FormEdit
  set_since set_until : String → FormEdit
  preset : (since until : String) → FormEdit
  set_type : StrategyType → FormEdit
  set_pin : PinEdit → FormEdit

-- `clamp(parseInt(…) || 1, 1, max)`
abbrev clamp_from_1 : Option ℤ → ℕ → ℕ
clamp_from_1 (some (pos n)) hi = min (max n 1) hi
clamp_from_1 _ hi = min 1 hi

unfoldable pub edit_form : (max_market_limit : ℕ) → FormEdit → FormState → FormState
edit_form m (set_ticker t) f = record {
  ticker = t;
  market_limit = f.market_limit;
  since = f.since;
  until = f.until;
  strategy_type = f.strategy_type;
  pins = f.pins;
}
edit_form m (set_limit n) f = record {
  ticker = f.ticker;
  market_limit = clamp_from_1 n m;
  since = f.since;
  until = f.until;
  strategy_type = f.strategy_type;
  pins = f.pins;
}
edit_form m (set_since d) f = record {
  ticker = f.ticker;
  market_limit = f.market_limit;
  since = d;
  until = f.until;
  strategy_type = f.strategy_type;
  pins = f.pins;
}
edit_form m (set_until d) f = record {
  ticker = f.ticker;
  market_limit = f.market_limit;
  since = f.since;
  until = d;
  strategy_type = f.strategy_type;
  pins = f.pins;
}
edit_form m (preset a b) f = record {
  ticker = f.ticker;
  market_limit = f.market_limit;
  since = a;
  until = b;
  strategy_type = f.strategy_type;
  pins = f.pins;
}
edit_form m (set_type t) f = record {
  ticker = f.ticker;
  market_limit = f.market_limit;
  since = f.since;
  until = f.until;
  strategy_type = t;
  pins = f.pins;
}
edit_form m (set_pin e) f = record {
  ticker = f.ticker;
  market_limit = f.market_limit;
  since = f.since;
  until = f.until;
  strategy_type = f.strategy_type;
  pins = edit_pin e f.pins;
}

pub record BacktestPost : Type 0 where
  pub strategy : Spec
  pub ticker : Ticker
  pub market_limit : ℕ
  pub since : Option String
  pub until : Option String

abbrev over_limit : Bool → ℕ → Option String → Option String
over_limit true max o = some (concat ("Your tier caps market_limit at " ∷ show_nat max ∷ "." ∷ []))
over_limit false max o = o

module _ (to_iso : String → Option String) (range_error : String) where
  -- `d ? new Date(d).toISOString() : undefined`, and whether this throws.
  abbrev pub iso_if : Bool → String → Option String
  iso_if true d = none
  iso_if false d = to_iso d

  abbrev pub iso_of : String → Option String
  iso_of d = iso_if (str_eq d "") d

  abbrev pub thrown_of : Option String → Option String → Option String
  thrown_of none o = some (else_text (or_text (some range_error) none) "Submit failed")
  thrown_of (some iso) o = o

  abbrev pub thrown_if : Bool → String → Option String → Option String
  thrown_if true d o = o
  thrown_if false d o = thrown_of (to_iso d) o

  -- What stops `submit` before its request: the limit, or a date that cannot be read, whose
  -- exception is shown.
  unfoldable pub form_guard : (max_market_limit : ℕ) → FormState → Option String
  form_guard max_market_limit f =
      over_limit (ltb max_market_limit f.market_limit) max_market_limit
        (thrown_if (str_eq f.since "") f.since (thrown_if (str_eq f.until "") f.until none))

  -- The body of the request.
  abbrev pub form_post : FormState → BacktestPost
  form_post f = record {
    strategy = build_strategy_spec f;
    ticker = f.ticker;
    market_limit = f.market_limit;
    since = or_text (iso_of f.since) none;
    until = or_text (iso_of f.until) none;
  }
