-- ===== src/Live/Tests.antt =====
-- The terminal on concrete steps.
use polyquantlab.Common.{◌≡◌, refl, [], ◌∷◌, some, true}
use polyquantlab.Strategy.Params.{btc, eth}
use polyquantlab.Live.{
  Board, Terminal, initial_terminal, fetch_all, set_ticker, settle_all, both, rows, ordered_boards,
  compute_mispricing, use_countdown, format_time_to_resolution,
}

abbrev btc_board : Board
btc_board = record { event_type = "1h"; market_id = "m1" }

-- ETH is chosen while BTC is fetched: nothing is asked for ETH, and the boards of BTC are shown.
abbrev switched : Terminal
switched =
    settle_all 5
      (both (record { status = 200; body = rows (btc_board ∷ []) })
        (record { status = 200; body = rows [] }))
      (set_ticker eth (fetch_all initial_terminal))

stale_boards :
    (switched.ticker ≡ eth) × (switched.boards ≡ btc_board ∷ []) × (switched.asked ≡ btc ∷ [])
unfolding set_ticker fetch_all settle_all
stale_boards = (refl, refl, refl)

ordered :
    ordered_boards (btc_board ∷ record { event_type = "5m"; market_id = "m2" } ∷ [])
    ≡ record { event_type = "5m"; market_id = "m2" } ∷ btc_board ∷ []
unfolding ordered_boards
ordered = refl

mispriced :
    compute_mispricing 100
      (some 40)
      (record { lo = 35; hi = 45; up_rate = some 52; n_markets = 30 } ∷ [])
    ≡ some (record { up_rate = 52; n = 30; under_priced = true; edge = 12 })
unfolding compute_mispricing
mispriced = refl

counted_down : use_countdown (some 95000) 20500 ≡ "01:14"
unfolding format_time_to_resolution
counted_down = refl
