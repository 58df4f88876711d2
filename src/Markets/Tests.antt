-- ===== src/Markets/Tests.antt =====
-- The table of markets on concrete steps.
use polyquantlab.Common.{◌≡◌, refl, true, [], ◌∷◌, none, some, str_eq}
use polyquantlab.Markets.{
  ResolvedMarket, Filter, all_markets, Table, initial_table, choose, replied, settle, chooses,
  settles_late, Reachable, start, step, visible, query_of,
}
use polyquantlab.Markets.Fresh.{IsFresh, reachable-IsFresh}

abbrev btc_only : Filter
btc_only = record { ticker = some "BTC"; event_type = none }

abbrev a_market : ResolvedMarket
a_market = record { market_id = "m1"; question = some "up?"; slug = none }

-- The filter is set and taken back before its load is settled.
abbrev taken_back : Table
taken_back = choose all_markets (choose btc_only (initial_table []))

abbrev after_late : Table
after_late = settle true btc_only (replied 200 (some (a_market ∷ []))) taken_back

after_late-Reachable : Reachable [] after_late
after_late-Reachable =
    step (step (step start (chooses btc_only _)) (chooses all_markets _))
      (settles_late btc_only (replied 200 (some (a_market ∷ []))) _)

reachable-IsFresh_example : IsFresh after_late
reachable-IsFresh_example = reachable-IsFresh after_late-Reachable

-- Then no load is under way, and the table is marked as loading for good.
stuck_loading : (after_late.loading ≡ true) × (after_late.request ≡ none)
unfolding choose
stuck_loading = (refl, refl)

queried :
    query_of btc_only ≡ ("limit", "500") ∷ ("with_underlying", "true") ∷ ("ticker", "BTC") ∷ []
queried = refl

seen : visible (λ s. s) (λ s. s) (λ h q. str_eq h q) (initial_table (a_market ∷ [])) ≡ a_market ∷ []
unfolding visible
seen = refl
