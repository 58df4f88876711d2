-- ===== src/Strategy/Params.antt =====
-- The parameters of a condition and their specification: the types, operator lists and tables at
-- the head of web/components/StrategyBuilder.tsx. A JavaScript number of the builder is a typed-in
-- decimal literal, which the code stores, compares with zero and prints.
use polyquantlab.Common.{
  ℕ, ◌≡◌, refl, Bool, true, false, not, ◌&&◌, List, [], ◌∷◌, ◌++◌, ltb, any, String, zero, suc, ◌%◌,
  ◌/◌, concat, show_nat, split_digits, if◌then◌else◌,
}

pub data Ticker : Type 0 where
  btc eth sol : Ticker

pub data EventType : Type 0 where
  m5 m15 h1 h4 daily_up_down : EventType

pub data Op : Type 0 where
  ge gt le lt eq ne crosses_above crosses_below : Op

pub data ConditionType : Type 0 where
  token_price spread time_to_resolution_s time_since_market_open_s : ConditionType
  coin_move_since_open_usd coin_move_since_open_pct : ConditionType
  coin_price_volatility token_price_volatility : ConditionType

pub data TokenSide : Type 0 where
  yes_side no_side : TokenSide

pub data TradeLogic : Type 0 where
  always_up always_down : TradeLogic

pub data FillMode : Type 0 where
  walk_book mid : FillMode

pub data UnitKind : Type 0 where
  probability seconds usd percent stddev : UnitKind

-- The decimal `digits / 10 ^ places`, below zero if `minus`.
pub record Number : Type 0 where
  pub minus : Bool
  pub digits : ℕ
  pub places : ℕ

abbrev pub decimal : ℕ → ℕ → Number
decimal digits places = record { minus = false; digits = digits; places = places }

-- `n > 0`
abbrev pub is_positive : Number → Bool
is_positive n = not n.minus && ltb 0 n.digits

-- The digits after the point, less the zeros at the end of them.
abbrev shorten : ℕ → ℕ → ℕ × ℕ
shorten digits zero = (digits, 0)
shorten digits (suc places) = elim (ltb 0 (digits % 10)) [
  | true ↦ (digits, suc places)
  | false ↦ shorten (digits / 10) places
]

abbrev with_places : ℕ × ℕ → String
with_places (digits, zero) = show_nat digits
with_places (digits, suc places) =
    let (whole, fraction) = split_digits (suc places) digits in
    concat (show_nat whole ∷ "." ∷ fraction ∷ [])

-- A number in a template literal, in the range that JavaScript prints without an exponent.
abbrev pub show_number : Number → String
show_number n =
    concat (
      (if n.minus && ltb 0 n.digits then "-" else "")
      ∷ with_places (shorten n.digits n.places)
      ∷ [])

abbrev pub same_op : Op → Op → Bool
same_op ge ge = true
same_op gt gt = true
same_op le le = true
same_op lt lt = true
same_op eq eq = true
same_op ne ne = true
same_op crosses_above crosses_above = true
same_op crosses_below crosses_below = true
same_op _ _ = false

-- `ops.includes(op)`
unfoldable pub includes : List Op → Op → Bool
includes ops op = any (λ o. same_op o op) ops

pub record ParamSpec : Type 0 where
  pub label : String
  pub unit : UnitKind
  pub default_value : Number
  pub default_op : Op
  pub valid_ops : List Op
  pub has_side : Bool
  pub needs_window : Bool

abbrev pub basic_ops : List Op
basic_ops = ge ∷ gt ∷ le ∷ lt ∷ eq ∷ ne ∷ []

abbrev pub asym_ops : List Op
asym_ops = ge ∷ gt ∷ le ∷ lt ∷ []

abbrev pub cross_ops : List Op
cross_ops = crosses_above ∷ crosses_below ∷ []

abbrev pub full_ops : List Op
full_ops = basic_ops ++ cross_ops

-- `PARAM_SPECS`, less the tooltips.
abbrev pub param_specs : ConditionType → ParamSpec
param_specs token_price = record {
  label = "Token price";
  unit = probability;
  default_value = decimal 6 1;
  default_op = ge;
  valid_ops = full_ops;
  has_side = true;
  needs_window = false;
}
param_specs spread = record {
  label = "Bid-ask spread";
  unit = probability;
  default_value = decimal 5 2;
  default_op = le;
  valid_ops = asym_ops;
  has_side = true;
  needs_window = false;
}
param_specs time_to_resolution_s = record {
  label = "Time until market close";
  unit = seconds;
  default_value = decimal 300 0;
  default_op = le;
  valid_ops = asym_ops;
  has_side = false;
  needs_window = false;
}
param_specs time_since_market_open_s = record {
  label = "Time since market open";
  unit = seconds;
  default_value = decimal 30 0;
  default_op = ge;
  valid_ops = asym_ops;
  has_side = false;
  needs_window = false;
}
param_specs coin_move_since_open_usd = record {
  label = "Coin move since open ($)";
  unit = usd;
  default_value = decimal 50 0;
  default_op = ge;
  valid_ops = full_ops;
  has_side = false;
  needs_window = false;
}
param_specs coin_move_since_open_pct = record {
  label = "Coin move since open (%)";
  unit = percent;
  default_value = decimal 1 1;
  default_op = ge;
  valid_ops = full_ops;
  has_side = false;
  needs_window = false;
}
param_specs coin_price_volatility = record {
  label = "Coin price volatility";
  unit = stddev;
  default_value = decimal 5 0;
  default_op = ge;
  valid_ops = asym_ops;
  has_side = false;
  needs_window = true;
}
param_specs token_price_volatility = record {
  label = "Token price volatility";
  unit = stddev;
  default_value = decimal 5 2;
  default_op = ge;
  valid_ops = asym_ops;
  has_side = true;
  needs_window = true;
}

abbrev pub op_labels : Op → String
op_labels ge = "≥"
op_labels gt = ">"
op_labels le = "≤"
op_labels lt = "<"
op_labels eq = "="
op_labels ne = "≠"
op_labels crosses_above = "crosses ↑"
op_labels crosses_below = "crosses ↓"

-- The default operator of a parameter is one of its valid operators.
pub includes-default_op :
    (t : ConditionType) → includes (param_specs t).valid_ops (param_specs t).default_op ≡ true
unfolding includes
includes-default_op token_price = refl
includes-default_op _ = refl
