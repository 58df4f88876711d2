-- ===== src/Codegen/Spec.antt =====
-- The strategy that web/libs/pythonCodegen.ts compiles, and how its words are printed.
use polyquantlab.Common.{String}
use polyquantlab.Strategy.Params.{
  Ticker, btc, eth, sol, EventType, m5, m15, h1, h4, daily_up_down, TradeLogic, always_up,
  always_down, FillMode, walk_book, mid, Number,
}
use polyquantlab.Strategy.Tree.{GroupOp}
use polyquantlab.Strategy.Wire.{WireNodes}
use polyquantlab.Common.{List, Option}

-- `CodegenGroup`
pub record CodegenGroup : Type 0 where
  pub op : GroupOp
  pub children : WireNodes
  pub connectors : Option (List GroupOp)

-- `CodegenSpec`
pub record CodegenSpec : Type 0 where
  pub ticker : Ticker
  pub event_type : EventType
  pub market_limit : Number
  pub size_usd : Number
  pub max_trades_per_market : Number
  pub fill_mode : FillMode
  pub max_fill_price : Number
  pub trade_logic : TradeLogic
  pub entry : CodegenGroup
  pub take_profit : CodegenGroup
  pub stop_loss : CodegenGroup

abbrev pub ticker_text : Ticker → String
ticker_text btc = "BTC"
ticker_text eth = "ETH"
ticker_text sol = "SOL"

abbrev pub event_text : EventType → String
event_text m5 = "5m"
event_text m15 = "15m"
event_text h1 = "1h"
event_text h4 = "4h"
event_text daily_up_down = "daily_up_down"

abbrev pub fill_text : FillMode → String
fill_text walk_book = "walk_book"
fill_text mid = "mid"

abbrev pub logic_text : TradeLogic → String
logic_text always_up = "always_up"
logic_text always_down = "always_down"

-- `side`
abbrev pub side : CodegenSpec → String
side spec = elim spec.trade_logic [ always_up ↦ "Up" | always_down ↦ "Down" ]

-- `side.toLowerCase()`
abbrev pub side_lower : CodegenSpec → String
side_lower spec = elim spec.trade_logic [ always_up ↦ "up" | always_down ↦ "down" ]

-- `obKey`, by the test `side === "Up"`
abbrev pub ob_key : CodegenSpec → String
ob_key spec = elim spec.trade_logic [ always_up ↦ "orderbook_up" | always_down ↦ "orderbook_down" ]
