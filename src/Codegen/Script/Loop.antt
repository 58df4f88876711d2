-- ===== src/Codegen/Script/Loop.antt =====
-- The loop and the report of the script that `generatePython` in web/libs/pythonCodegen.ts prints.
use polyquantlab.Common.{String, List, [], ◌∷◌, concat}
use polyquantlab.Codegen.Spec.{CodegenSpec, side, side_lower, ob_key}

abbrev pub fetch_lines : List String
fetch_lines =
    "# ─── Main loop ──────────────────────────────────────────────────────"
    ∷ "async def fetch_universe(client: httpx.AsyncClient) -> list[dict]:"
    ∷ "    r = await client.get(" ∷ "        f\"{API_BASE}/v1/markets/resolved\","
    ∷ "        params={\"ticker\": TICKER, \"event_type\": MARKET_TYPE, \"limit\": MARKET_LIMIT},"
    ∷ "        headers={\"Authorization\": f\"Bearer {API_KEY}\"}," ∷ "    )"
    ∷ "    r.raise_for_status()" ∷ "    return (r.json() or {}).get(\"markets\", [])" ∷ "" ∷ ""
    ∷ "async def fetch_snapshots(client: httpx.AsyncClient, market_id: str) -> list[dict]:"
    ∷ "    r = await client.get(" ∷ "        f\"{API_BASE}/v1/snapshots\","
    ∷ "        params={\"market_id\": market_id, \"start\": \"1970-01-01T00:00:00\", \"end\": \"2999-12-31T23:59:59\", \"limit\": 100000},"
    ∷ "        headers={\"Authorization\": f\"Bearer {API_KEY}\"}," ∷ "    )"
    ∷ "    r.raise_for_status()" ∷ "    return (r.json() or {}).get(\"snapshots\", [])" ∷ "" ∷ ""
    ∷ "def fill_at(snap: dict, side: str) -> tuple[float, float, float] | None:"
    ∷ "    \"\"\"Apply FILL_MODE + MAX_FILL_PRICE. Returns (avg_price, filled_usd,"
    ∷ "    tokens) or None if can't fill.\"\"\""
    ∷ "    ob_key = \"orderbook_up\" if side == \"Up\" else \"orderbook_down\""
    ∷ "    ob = snap.get(ob_key) or {}" ∷ "    asks = ob.get(\"asks\") or []" ∷ "    if not asks:"
    ∷ "        return None" ∷ "    best_ask = float(asks[0][\"price\"])"
    ∷ "    if best_ask > MAX_FILL_PRICE:" ∷ "        return None" ∷ "    if FILL_MODE == \"mid\":"
    ∷ "        bids = ob.get(\"bids\") or []" ∷ "        if not bids:" ∷ "            return None"
    ∷ "        mid = (float(bids[0][\"price\"]) + best_ask) / 2"
    ∷ "        tokens = POSITION_SIZE / mid" ∷ "        return mid, POSITION_SIZE, tokens"
    ∷ "    # walk_book" ∷ "    tokens, avg, filled = walk_buy_book(ob, POSITION_SIZE)"
    ∷ "    if not filled or tokens <= 0:" ∷ "        return None"
    ∷ "    return avg, POSITION_SIZE, tokens" ∷ "" ∷ "" ∷ []

abbrev pub market_lines : CodegenSpec → List String
market_lines spec =
    "async def process_market(client: httpx.AsyncClient, m: dict) -> list[dict]:"
    ∷ "    snaps = await fetch_snapshots(client, m[\"market_id\"])"
    ∷ "    if not snaps:"
    ∷ "        return []"
    ∷ "    market_open = snaps[0]"
    ∷ "    resolution_at = m.get(\"resolution_at\") or m.get(\"resolved_at\")"
    ∷ "    trades = []"
    ∷ "    scan_from = 0"
    ∷ ""
    ∷ "    for _ in range(MAX_TRADES_PER_MKT):"
    ∷ "        prev_state: dict = {}"
    ∷ "        entry_idx = None"
    ∷ "        for i in range(scan_from, len(snaps)):"
    ∷ "            history = snaps[max(0, i - 60):i]"
    ∷ "            if check_entry(snaps[i], market_open, history, resolution_at, prev_state):"
    ∷ "                entry_idx = i"
    ∷ "                break"
    ∷ "        if entry_idx is None:"
    ∷ "            break"
    ∷ (concat ("        fill = fill_at(snaps[entry_idx], \"" ∷ (side spec) ∷ "\")" ∷ []))
    ∷ "        if fill is None:"
    ∷ "            scan_from = entry_idx + 1"
    ∷ "            continue"
    ∷ "        entry_price, entry_usd, tokens = fill"
    ∷ "        entry_fee = calc_taker_fee(tokens, entry_price)"
    ∷ ""
    ∷ "        # Exit scan: TP / SL or resolution"
    ∷ "        exit_price = None"
    ∷ "        exit_reason = \"Resolution\""
    ∷ "        exit_proceeds = 0.0"
    ∷ "        prev_state = {}"
    ∷ "        for i in range(entry_idx + 1, len(snaps)):"
    ∷ "            history = snaps[max(0, i - 60):i]"
    ∷ "            if check_take_profit(snaps[i], market_open, history, resolution_at, prev_state):"
    ∷ (concat ("                ob_key = \"" ∷ (ob_key spec) ∷ "\"" ∷ []))
    ∷ "                proceeds, avg, filled = walk_sell_book(snaps[i].get(ob_key) or {}, tokens)"
    ∷ "                if filled and avg > 0:"
    ∷ "                    exit_price = avg"
    ∷ "                    exit_proceeds = proceeds"
    ∷ "                    exit_reason = \"TP\""
    ∷ "                    scan_from = i + 1"
    ∷ "                    break"
    ∷ "            if check_stop_loss(snaps[i], market_open, history, resolution_at, prev_state):"
    ∷ (concat ("                ob_key = \"" ∷ (ob_key spec) ∷ "\"" ∷ []))
    ∷ "                proceeds, avg, filled = walk_sell_book(snaps[i].get(ob_key) or {}, tokens)"
    ∷ "                if filled and avg > 0:"
    ∷ "                    exit_price = avg"
    ∷ "                    exit_proceeds = proceeds"
    ∷ "                    exit_reason = \"SL\""
    ∷ "                    scan_from = i + 1"
    ∷ "                    break"
    ∷ ""
    ∷ "        if exit_price is None:"
    ∷ (concat (
        "            won = (m.get(\"resolution_outcome\") or \"\").lower().startswith(\""
        ∷ (side_lower spec)
        ∷ "\")"
        ∷ []))
    ∷ "            exit_price = 1.0 if won else 0.0"
    ∷ "            exit_proceeds = tokens * exit_price"
    ∷ "            scan_from = len(snaps)"
    ∷ ""
    ∷ "        exit_fee = calc_taker_fee(tokens, exit_price)"
    ∷ "        pnl = round(exit_proceeds - entry_usd - entry_fee - exit_fee, 2)"
    ∷ "        trades.append({"
    ∷ "            \"market_id\": m[\"market_id\"],"
    ∷ (concat ("            \"side\": \"" ∷ (side spec) ∷ "\"," ∷ []))
    ∷ "            # Entry timestamp from the snapshot — used to sort the"
    ∷ "            # combined trade list across markets chronologically so"
    ∷ "            # the cumulative P&L summary reads in the order trades"
    ∷ "            # actually happened, not by entry price."
    ∷ "            \"entry_ts\": snaps[entry_idx].get(\"ts\"),"
    ∷ "            \"entry_price\": round(entry_price, 4),"
    ∷ "            \"exit_price\": round(exit_price, 4),"
    ∷ "            \"exit_reason\": exit_reason,"
    ∷ "            \"tokens\": round(tokens, 4),"
    ∷ "            \"pnl\": pnl,"
    ∷ "        })"
    ∷ "        if exit_reason == \"Resolution\":"
    ∷ "            break"
    ∷ "    return trades"
    ∷ ""
    ∷ ""
    ∷ []

abbrev pub main_lines : List String
main_lines =
    "async def main() -> None:" ∷ "    async with httpx.AsyncClient(timeout=30) as client:"
    ∷ "        universe = await fetch_universe(client)"
    ∷ "        print(f\"Loaded {len(universe)} markets · running backtest…\")"
    ∷ "        all_trades: list[dict] = []" ∷ "        for m in universe:"
    ∷ "            t = await process_market(client, m)" ∷ "            all_trades.extend(t)"
    ∷ "        # Chronological ordering — the cumulative P&L line below"
    ∷ "        # compounds trade-by-trade, so we need the actual sequence."
    ∷ "        # Previously sorted by entry_price which scrambled the order"
    ∷ "        # and made the equity curve summary meaningless."
    ∷ "        all_trades.sort(key=lambda t: t.get(\"entry_ts\") or \"\")" ∷ ""
    ∷ "    if not all_trades:" ∷ "        print(\"No trades fired.\")" ∷ "        return" ∷ ""
    ∷ "    total_pnl = sum(t[\"pnl\"] for t in all_trades)"
    ∷ "    wins = sum(1 for t in all_trades if t[\"pnl\"] > 0)"
    ∷ "    losses = len(all_trades) - wins"
    ∷ "    best = max((t[\"pnl\"] for t in all_trades), default=0)"
    ∷ "    worst = min((t[\"pnl\"] for t in all_trades), default=0)"
    ∷ "    print(f\"Trades: {len(all_trades)} · {wins}W {losses}L\")"
    ∷ "    print(f\"Net P&L: {'+'if total_pnl>=0 else ''}{total_pnl:.2f}\")"
    ∷ "    print(f\"Win rate: {wins / len(all_trades) * 100:.1f}%\")"
    ∷ "    print(f\"Best:  {'+' if best > 0 else ''}{best:.2f}\")"
    ∷ "    print(f\"Worst: {worst:.2f}\")" ∷ "" ∷ "" ∷ "if __name__ == \"__main__\":"
    ∷ "    asyncio.run(main())" ∷ []
