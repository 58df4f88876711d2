-- ===== src/Forms/Inputs.antt =====
-- The fields of a strategy in a form: `NumberField` and `SelectField` of the three forms.
use polyquantlab.Common.{Option, none, some}
use polyquantlab.Strategy.Params.{Number}
use polyquantlab.Forms.{Direction, Side, Pins}

-- A number is what `parseFloat` gives; `none` is `NaN`, which `NumberField` leaves out.
pub data PinEdit : Type 0 where
  set_direction : Direction → PinEdit
  set_side : Side → PinEdit
  set_size_usd set_threshold set_lookback set_z_threshold set_minutes_before set_minutes_window :
      Option Number → PinEdit

abbrev number_or : Option Number → Number → Number
number_or none n = n
number_or (some m) n = m

unfoldable pub edit_pin : PinEdit → Pins → Pins
edit_pin (set_direction v) p = record {
  direction = v;
  side = p.side;
  size_usd = p.size_usd;
  threshold = p.threshold;
  lookback = p.lookback;
  z_threshold = p.z_threshold;
  minutes_before = p.minutes_before;
  minutes_window = p.minutes_window;
}
edit_pin (set_side v) p = record {
  direction = p.direction;
  side = v;
  size_usd = p.size_usd;
  threshold = p.threshold;
  lookback = p.lookback;
  z_threshold = p.z_threshold;
  minutes_before = p.minutes_before;
  minutes_window = p.minutes_window;
}
edit_pin (set_size_usd v) p = record {
  direction = p.direction;
  side = p.side;
  size_usd = number_or v p.size_usd;
  threshold = p.threshold;
  lookback = p.lookback;
  z_threshold = p.z_threshold;
  minutes_before = p.minutes_before;
  minutes_window = p.minutes_window;
}
edit_pin (set_threshold v) p = record {
  direction = p.direction;
  side = p.side;
  size_usd = p.size_usd;
  threshold = number_or v p.threshold;
  lookback = p.lookback;
  z_threshold = p.z_threshold;
  minutes_before = p.minutes_before;
  minutes_window = p.minutes_window;
}
edit_pin (set_lookback v) p = record {
  direction = p.direction;
  side = p.side;
  size_usd = p.size_usd;
  threshold = p.threshold;
  lookback = number_or v p.lookback;
  z_threshold = p.z_threshold;
  minutes_before = p.minutes_before;
  minutes_window = p.minutes_window;
}
edit_pin (set_z_threshold v) p = record {
  direction = p.direction;
  side = p.side;
  size_usd = p.size_usd;
  threshold = p.threshold;
  lookback = p.lookback;
  z_threshold = number_or v p.z_threshold;
  minutes_before = p.minutes_before;
  minutes_window = p.minutes_window;
}
edit_pin (set_minutes_before v) p = record {
  direction = p.direction;
  side = p.side;
  size_usd = p.size_usd;
  threshold = p.threshold;
  lookback = p.lookback;
  z_threshold = p.z_threshold;
  minutes_before = number_or v p.minutes_before;
  minutes_window = p.minutes_window;
}
edit_pin (set_minutes_window v) p = record {
  direction = p.direction;
  side = p.side;
  size_usd = p.size_usd;
  threshold = p.threshold;
  lookback = p.lookback;
  z_threshold = p.z_threshold;
  minutes_before = p.minutes_before;
  minutes_window = number_or v p.minutes_window;
}
