-- ===== src/Calibration.antt =====
-- The calibration page, web/components/CalibrationView.tsx: its insight and what it hands to the
-- strategy builder. Probabilities are natural numbers of parts of `one`; `to_two` is
-- `Number(x.toFixed(2))` of such a number.
mod Tests
pub mod Widest
use polyquantlab.Common.{
  ℕ, ◌+◌, ◌-◌, ◌*◌, ltb, leb, ◌&&◌, Bool, true, false, List, [], ◌∷◌, Option, none, some, String,
  keep_if, if◌then◌else◌,
}
use polyquantlab.Strategy.Params.{
  Ticker, btc, EventType, m5, TradeLogic, always_up, always_down, token_price, yes_side, ge, le,
  Number,
}
use polyquantlab.Strategy.Tree.{Condition, leaf}
use polyquantlab.Strategy.Builder.{StoredState, flat_array}

pub record Bucket : Type 0 where
  pub lo : ℕ
  pub hi : ℕ
  pub n_markets : ℕ
  pub up_rate : Option ℕ
  pub mean_mid : Option ℕ

abbrev pub is_some : {A : Type 0} → Option A → Bool
is_some none = false
is_some (some a) = true

abbrev pub or_zero : Option ℕ → ℕ
or_zero none = 0
or_zero (some n) = n

-- `candidates`
abbrev pub is_candidate : Bucket → Bool
is_candidate b = leb 20 b.n_markets && (is_some b.up_rate && is_some b.mean_mid)

abbrev pub candidates : List Bucket → List Bucket
candidates bs = keep_if is_candidate bs

-- `Math.abs((b.up_rate ?? 0) - (b.mean_mid ?? 0))`
abbrev pub gap : Bucket → ℕ
gap b = (or_zero b.up_rate - or_zero b.mean_mid) + (or_zero b.mean_mid - or_zero b.up_rate)

abbrev pub wider : Bucket → Bucket → Bucket
wider best b = if ltb (gap best) (gap b) then b else best

-- `.reduce(…)`, which begins with the first.
unfoldable pub widest : Bucket → List Bucket → Bucket
widest best [] = best
widest best (b ∷ bs) = widest (wider best b) bs

-- `winner`
abbrev pub winner_of : List Bucket → Option Bucket
winner_of [] = none
winner_of (b ∷ bs) = some (widest b bs)

abbrev pub notable_if : Bool → Bucket → Option Bucket
notable_if true b = none
notable_if false b = some b

abbrev pub notable : (one : ℕ) → Option Bucket → Option Bucket
notable one none = none
notable one (some b) = notable_if (ltb (100 * gap b) (2 * one)) b

-- The bucket that `InsightCard` shows: none where no candidate is off by 2pp.
unfoldable pub insight : (one : ℕ) → List Bucket → Option Bucket
insight one bs = notable one (winner_of (candidates bs))

-- `delta > 0`
abbrev pub is_under_priced : Bucket → Bool
is_under_priced b = ltb (or_zero b.mean_mid) (or_zero b.up_rate)

abbrev pub trade_logic_of : Bucket → TradeLogic
trade_logic_of b = if is_under_priced b then always_up else always_down

abbrev pub ticker_or : Option Ticker → Ticker
ticker_or none = btc
ticker_or (some t) = t

abbrev pub event_type_or : Option EventType → EventType
event_type_or none = m5
event_type_or (some t) = t

-- The prefill of `applyToBuilder`; no ticker or no window is the filter ALL.
unfoldable pub apply_to_builder :
    (to_two : ℕ → Number) (id id' : String)
    → Option Ticker
    → Option EventType
    → Bucket
    → StoredState
apply_to_builder to_two id id' ticker event_type b = record {
  overlay = λ d. record d {
    ticker = ticker_or ticker;
    event_type = event_type_or event_type;
    trade_logic = trade_logic_of b;
  };
  entry = flat_array (
      leaf (record {
        id = id;
        type = token_price;
        side = some yes_side;
        op = ge;
        value = to_two b.lo;
        window_sec = none;
      })
      ∷ leaf (record {
        id = id';
        type = token_price;
        side = some yes_side;
        op = le;
        value = to_two b.hi;
        window_sec = none;
      })
      ∷ []);
  take_profit = flat_array [];
  stop_loss = flat_array [];
}

-- `totalN`
abbrev pub total_markets : List Bucket → ℕ
total_markets [] = 0
total_markets (b ∷ bs) = b.n_markets + total_markets bs

-- `weightedImplied` and `weightedActual` of `SummaryBar`, by numerator and denominator.
abbrev pub weighted : (Bucket → Option ℕ) → List Bucket → ℕ
weighted value [] = 0
weighted value (b ∷ bs) = or_zero (value b) * b.n_markets + weighted value bs

abbrev pub mean_of : (Bucket → Option ℕ) → List Bucket → Option (ℕ × ℕ)
mean_of value bs =
    if ltb 0 (total_markets bs) then some (weighted value bs, total_markets bs) else none
