-- ===== src/Codegen/Script/Head.antt =====
-- The head of the script that `generatePython` in web/libs/pythonCodegen.ts prints, up to the
-- helpers: the comment, the imports and the parameter block.
use polyquantlab.Common.{String, List, [], ◌∷◌, concat}
use polyquantlab.Strategy.Params.{show_number}
use polyquantlab.Codegen.Spec.{CodegenSpec, ticker_text, event_text, fill_text, logic_text}

abbrev pub head_lines : String → CodegenSpec → List String
head_lines now spec =
    "# ─────────────────────────────────────────────────────────────────────────"
    ∷ (concat ("# Strategy compiled by PolyQuantLab Strategy Builder · " ∷ now ∷ []))
    ∷ "# Edit visually at https://polyquantlab.com/dashboard/strategy-builder"
    ∷ "#"
    ∷ "# Run:  pip install polyquantlab && export POLYQUANTLAB_API_KEY=..."
    ∷ "#       python this_strategy.py"
    ∷ "#"
    ∷ "# What this does:"
    ∷ (concat (
        "#   1. Loads the most-recent "
        ∷ (show_number spec.market_limit)
        ∷ " resolved "
        ∷ (ticker_text spec.ticker)
        ∷ " "
        ∷ (event_text spec.event_type)
        ∷ []))
    ∷ "#      markets from PolyQuantLab."
    ∷ "#   2. For each market, replays the orderbook snapshot stream and"
    ∷ "#      fires the Entry / Take Profit / Stop Loss rules below."
    ∷ "#   3. Walks the recorded book (or uses mid, see FILL_MODE) — same"
    ∷ "#      engine as the website backtest."
    ∷ "#   4. Reports per-trade P&L, equity curve, Sharpe, max DD."
    ∷ "#"
    ∷ "# This is BACKTEST-mode (historical replay). To run it LIVE — paper"
    ∷ "# or real — swap the loop body for the websocket stream + send orders"
    ∷ "# to the Polymarket CLOB. See https://polyquantlab.com/docs/live-bot."
    ∷ "# ─────────────────────────────────────────────────────────────────────────"
    ∷ ""
    ∷ "import asyncio"
    ∷ "import datetime"
    ∷ "import math"
    ∷ "import os"
    ∷ "import sys"
    ∷ "from typing import Any"
    ∷ ""
    ∷ "import httpx  # pip install httpx"
    ∷ ""
    ∷ "# ─── Strategy parameters ────────────────────────────────────────────"
    ∷ (concat ("POSITION_SIZE        = " ∷ (show_number spec.size_usd) ∷ []))
    ∷ (concat ("TICKER               = \"" ∷ (ticker_text spec.ticker) ∷ "\"" ∷ []))
    ∷ (concat ("MARKET_TYPE          = \"" ∷ (event_text spec.event_type) ∷ "\"" ∷ []))
    ∷ (concat ("MARKET_LIMIT         = " ∷ (show_number spec.market_limit) ∷ []))
    ∷ (concat ("MAX_TRADES_PER_MKT   = " ∷ (show_number spec.max_trades_per_market) ∷ []))
    ∷ (concat (
        "FILL_MODE            = \""
        ∷ (fill_text spec.fill_mode)
        ∷ "\"        # \"walk_book\" or \"mid\""
        ∷ []))
    ∷ (concat (
        "MAX_FILL_PRICE       = "
        ∷ (show_number spec.max_fill_price)
        ∷ "        # refuse entries above this best-ask"
        ∷ []))
    ∷ (concat (
        "TRADE_LOGIC          = \""
        ∷ (logic_text spec.trade_logic)
        ∷ "\"   # always_up | always_down"
        ∷ []))
    ∷ "# Polymarket 2026 fee at midpoint price; scales by p × (1 − p)."
    ∷ "TAKER_FEE_RATE       = 0.072"
    ∷ ""
    ∷ "API_BASE             = \"https://api.polyquantlab.com\""
    ∷ "API_KEY              = os.environ.get(\"POLYQUANTLAB_API_KEY\")"
    ∷ "if not API_KEY:"
    ∷ "    print(\"Set POLYQUANTLAB_API_KEY before running.\", file=sys.stderr)"
    ∷ "    sys.exit(1)"
    ∷ ""
    ∷ ""
    ∷ []
