-- ===== src/Codegen/Script/Helpers.antt =====
-- The helpers of the script that `generatePython` in web/libs/pythonCodegen.ts prints: walking the
-- book, the fee and the condition primitives. They do not depend on the strategy.
use polyquantlab.Common.{String, List, [], ◌∷◌}

abbrev pub book_lines : List String
book_lines =
    "# ─── Walk-the-book helpers ──────────────────────────────────────────"
    ∷ "def walk_buy_book(orderbook: dict, dollars_to_spend: float) -> tuple[float, float, bool]:"
    ∷ "    \"\"\"Walk asks lowest-first, spend up to dollars_to_spend."
    ∷ "    Returns (tokens_acquired, avg_fill_price, fully_filled).\"\"\""
    ∷ "    asks = (orderbook or {}).get(\"asks\") or []" ∷ "    remaining = dollars_to_spend"
    ∷ "    tokens = 0.0" ∷ "    for level in asks:" ∷ "        price = float(level[\"price\"])"
    ∷ "        size = float(level[\"size\"])" ∷ "        cost_full = price * size"
    ∷ "        if remaining >= cost_full:" ∷ "            tokens += size"
    ∷ "            remaining -= cost_full" ∷ "        else:"
    ∷ "            tokens += remaining / price" ∷ "            remaining = 0.0"
    ∷ "            break" ∷ "    spent = dollars_to_spend - remaining"
    ∷ "    avg = spent / tokens if tokens > 0 else 0.0" ∷ "    return tokens, avg, remaining < 1e-4"
    ∷ "" ∷ ""
    ∷ "def walk_sell_book(orderbook: dict, tokens_to_sell: float) -> tuple[float, float, bool]:"
    ∷ "    \"\"\"Walk bids highest-first to convert N tokens back to USD.\"\"\""
    ∷ "    bids = (orderbook or {}).get(\"bids\") or []" ∷ "    remaining = tokens_to_sell"
    ∷ "    proceeds = 0.0" ∷ "    for level in bids:" ∷ "        price = float(level[\"price\"])"
    ∷ "        size = float(level[\"size\"])" ∷ "        if remaining >= size:"
    ∷ "            proceeds += price * size" ∷ "            remaining -= size" ∷ "        else:"
    ∷ "            proceeds += price * remaining" ∷ "            remaining = 0.0"
    ∷ "            break" ∷ "    sold = tokens_to_sell - remaining"
    ∷ "    avg = proceeds / sold if sold > 0 else 0.0"
    ∷ "    return proceeds, avg, remaining < 1e-4" ∷ "" ∷ ""
    ∷ "def calc_taker_fee(num_tokens: float, price: float) -> float:"
    ∷ "    \"\"\"Polymarket taker fee: tokens × feeRate × p × (1 − p). Zero at the"
    ∷ "    extremes (1.0 / 0.0) where market truth is unambiguous; peak ~1.8%"
    ∷ "    at the 0.5 midpoint.\"\"\"" ∷ "    if TAKER_FEE_RATE <= 0 or num_tokens <= 0:"
    ∷ "        return 0.0" ∷ "    p = max(0.0, min(1.0, price))"
    ∷ "    return num_tokens * TAKER_FEE_RATE * p * (1.0 - p)" ∷ "" ∷ "" ∷ []

abbrev pub primitive_lines : List String
primitive_lines =
    "# ─── Condition primitives ───────────────────────────────────────────"
    ∷ "def parse_ts(s: str | None) -> datetime.datetime | None:" ∷ "    if not s:"
    ∷ "        return None"
    ∷ "    return datetime.datetime.fromisoformat(s.replace(\"Z\", \"+00:00\"))" ∷ "" ∷ ""
    ∷ "def time_to_resolution_s(snap: dict, resolution_at: str | None) -> float | None:"
    ∷ "    res = parse_ts(resolution_at)" ∷ "    ts = parse_ts(snap.get(\"ts\"))"
    ∷ "    if res is None or ts is None:" ∷ "        return None"
    ∷ "    return (res - ts).total_seconds()" ∷ "" ∷ ""
    ∷ "def time_since_market_open_s(snap: dict, market_open: dict | None) -> float | None:"
    ∷ "    if market_open is None:" ∷ "        return None"
    ∷ "    open_ts = parse_ts(market_open.get(\"ts\"))" ∷ "    cur_ts = parse_ts(snap.get(\"ts\"))"
    ∷ "    if open_ts is None or cur_ts is None:" ∷ "        return None"
    ∷ "    return (cur_ts - open_ts).total_seconds()" ∷ "" ∷ ""
    ∷ "def coin_move_since_open_usd(snap: dict, market_open: dict | None) -> float | None:"
    ∷ "    if market_open is None:" ∷ "        return None"
    ∷ "    cur = snap.get(\"underlying_price\")"
    ∷ "    start = market_open.get(\"underlying_price\")" ∷ "    if cur is None or start is None:"
    ∷ "        return None" ∷ "    return float(cur) - float(start)" ∷ "" ∷ ""
    ∷ "def coin_move_since_open_pct(snap: dict, market_open: dict | None) -> float | None:"
    ∷ "    if market_open is None:" ∷ "        return None"
    ∷ "    cur = snap.get(\"underlying_price\")"
    ∷ "    start = market_open.get(\"underlying_price\")"
    ∷ "    if cur is None or start is None or float(start) == 0:" ∷ "        return None"
    ∷ "    return (float(cur) - float(start)) / float(start) * 100.0" ∷ "" ∷ ""
    ∷ "def _stddev_over_window(snap, history, window_sec, value_fn):"
    ∷ "    \"\"\"Population stddev of value_fn over snapshots in the last"
    ∷ "    window_sec. Returns None if fewer than 2 samples available.\"\"\""
    ∷ "    cur_ts = parse_ts(snap.get(\"ts\"))" ∷ "    if cur_ts is None:" ∷ "        return None"
    ∷ "    values = []" ∷ "    v0 = value_fn(snap)" ∷ "    if v0 is not None:"
    ∷ "        values.append(v0)" ∷ "    for past in reversed(history):"
    ∷ "        past_ts = parse_ts(past.get(\"ts\"))" ∷ "        if past_ts is None:"
    ∷ "            continue" ∷ "        if (cur_ts - past_ts).total_seconds() > window_sec:"
    ∷ "            break" ∷ "        v = value_fn(past)" ∷ "        if v is not None:"
    ∷ "            values.append(v)" ∷ "    if len(values) < 2:" ∷ "        return None"
    ∷ "    mean = sum(values) / len(values)"
    ∷ "    var = sum((x - mean) ** 2 for x in values) / len(values)" ∷ "    return math.sqrt(var)"
    ∷ "" ∷ "" ∷ "def coin_volatility(history, snap, window_sec):"
    ∷ "    return _stddev_over_window(" ∷ "        snap, history, window_sec,"
    ∷ "        lambda s: float(s[\"underlying_price\"]) if s.get(\"underlying_price\") is not None else None,"
    ∷ "    )" ∷ "" ∷ "" ∷ "def token_volatility(history, snap, window_sec, side):"
    ∷ "    key = f\"mid_{side}\"" ∷ "    return _stddev_over_window("
    ∷ "        snap, history, window_sec,"
    ∷ "        lambda s: float(s[key]) if s.get(key) is not None else None," ∷ "    )" ∷ "" ∷ ""
    ∷ "def crosses_above(curr, prev, threshold):"
    ∷ "    return prev is not None and prev < threshold <= curr" ∷ "" ∷ ""
    ∷ "def crosses_below(curr, prev, threshold):"
    ∷ "    return prev is not None and prev > threshold >= curr" ∷ "" ∷ "" ∷ []
