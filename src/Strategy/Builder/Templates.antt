-- ===== src/Strategy/Builder/Templates.antt =====
-- The registry `TEMPLATES` of web/components/StrategyBuilder.tsx, without the texts. The ids that a
-- template draws are `draw 0`, `draw 1`, ….
use polyquantlab.Common.{ℕ, String, [], ◌∷◌, none, some}
use polyquantlab.Strategy.Params.{
  TradeLogic, always_up, always_down, ConditionType, token_price, spread, time_to_resolution_s,
  coin_move_since_open_usd, yes_side, Op, ge, le, crosses_above, Number, decimal,
}
use polyquantlab.Strategy.Tree.{Condition, mk_group, new_condition}
use polyquantlab.Strategy.Builder.{TemplatePatch}

pub data TemplateKey : Type 0 where
  buy_and_hold_up buy_and_hold_down threshold_buy_cheap_up momentum_follow : TemplateKey
  contrarian_fade last_minute_scalp tight_book_only breakout_50 mean_reversion_tp_sl : TemplateKey

-- `{ ...newCondition(type, "yes"), op, value }`
unfoldable pub with_op : String → ConditionType → Op → Number → Condition
with_op id type op value = record (new_condition id type yes_side) { op = op; value = value }

abbrev pub entry_only : (ℕ → String) → TradeLogic → ConditionType → Op → Number → TemplatePatch
entry_only draw logic type op value = record {
  trade_logic = some logic;
  entry = some (mk_group (draw 1) (with_op (draw 0) type op value ∷ []));
  take_profit = none;
  stop_loss = none;
}

abbrev pub hold : (ℕ → String) → TradeLogic → TemplatePatch
hold draw logic = record {
  trade_logic = some logic;
  entry = some (mk_group (draw 0) []);
  take_profit = some (mk_group (draw 1) []);
  stop_loss = some (mk_group (draw 2) []);
}

-- `build()` of each template.
unfoldable pub build : (ℕ → String) → TemplateKey → TemplatePatch
build draw buy_and_hold_up = hold draw always_up
build draw buy_and_hold_down = hold draw always_down
build draw threshold_buy_cheap_up = entry_only draw always_up token_price le (decimal 3 1)
build draw momentum_follow = entry_only draw always_up coin_move_since_open_usd ge (decimal 50 0)
build draw contrarian_fade = entry_only draw always_down coin_move_since_open_usd ge (decimal 100 0)
build draw last_minute_scalp = entry_only draw always_up time_to_resolution_s le (decimal 30 0)
build draw tight_book_only = entry_only draw always_up spread le (decimal 3 2)
build draw breakout_50 = entry_only draw always_up token_price crosses_above (decimal 5 1)
build draw mean_reversion_tp_sl = record {
  trade_logic = some always_up;
  entry = some (mk_group (draw 1) (with_op (draw 0) token_price le (decimal 3 1) ∷ []));
  take_profit = some (mk_group (draw 3) (with_op (draw 2) token_price ge (decimal 5 1) ∷ []));
  stop_loss = some (mk_group (draw 5) (with_op (draw 4) token_price le (decimal 15 2) ∷ []));
}
