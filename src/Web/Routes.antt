-- ===== src/Web/Routes.antt =====
-- The routes in web/app/api that forward to the backend by `fastapiProxy`. Reading the session is
-- Supabase's: its user is an argument.
use polyquantlab.Common.{ℕ, String, str_eq, Bool, true, false, [], ◌∷◌, Option, none, some, concat}
use polyquantlab.Web.Http.{Request, Fetched, Response, json}
use polyquantlab.Web.Bridge.{Env}
use polyquantlab.Web.Proxy.{Incoming, Handled, fastapi_proxy}

pub record User : Type 0 where
  pub id : String
  pub email : Option String

-- The handlers, a method of a file each.
pub data Route : Type 0 where
  get_calibration get_markets get_live_board get_recent_trades get_candles get_arb get_audit : Route
  get_market get_timeseries get_orderbook get_job : String → Route
  list_strategies create_strategy : Route
  get_strategy delete_strategy pause_strategy resume_strategy get_equity get_positions :
      String → Route

-- The handlers under web/app/api/paper want a user with an email, the others any user.
abbrev pub is_paper : Route → Bool
is_paper list_strategies = true
is_paper create_strategy = true
is_paper (get_strategy id) = true
is_paper (delete_strategy id) = true
is_paper (pause_strategy id) = true
is_paper (resume_strategy id) = true
is_paper (get_equity id) = true
is_paper (get_positions id) = true
is_paper _ = false

-- The method that a handler sets, where it sets one.
abbrev pub set_method : Route → Option String
set_method (delete_strategy id) = some "DELETE"
set_method (pause_strategy id) = some "PATCH"
set_method (resume_strategy id) = some "PATCH"
set_method _ = none

abbrev unauthorized : Response
unauthorized = json 401 "{\"error\":\"Unauthorized\"}"

abbrev pub turned_away : Handled
turned_away = record { requests = []; response = unauthorized }

abbrev pub some_unless : Bool → String → Option String
some_unless true e = none
some_unless false e = some e

abbrev pub nonempty : Option String → Option String
nonempty none = none
nonempty (some e) = some_unless (str_eq e "") e

-- The email of the session, where it is not empty: `user?.email` as a test.
abbrev pub user_email : Option User → Option String
user_email none = none
user_email (some u) = nonempty u.email

-- `encodeURIComponent` is a parameter.
module _ (strip_slash : String → String) (encode : String → String)
    (net : ℕ → Request → Fetched) where
  -- The path of the backend.
  abbrev pub fastapi_path : Route → String
  fastapi_path get_calibration = "/v1/stats/calibration"
  fastapi_path get_markets = "/v1/markets/resolved"
  fastapi_path get_live_board = "/v1/polymarket/live-board"
  fastapi_path get_recent_trades = "/v1/polymarket/recent-trades"
  fastapi_path get_candles = "/v1/candles"
  fastapi_path get_arb = "/v1/arb/live"
  fastapi_path get_audit = "/v1/arb/audit/aggregate"
  fastapi_path (get_market id) = concat ("/v1/markets/" ∷ encode id ∷ [])
  fastapi_path (get_timeseries id) = concat ("/v1/markets/" ∷ encode id ∷ "/timeseries" ∷ [])
  fastapi_path (get_orderbook id) = concat ("/v1/markets/" ∷ encode id ∷ "/orderbook" ∷ [])
  fastapi_path (get_job id) = concat ("/v1/backtest/" ∷ encode id ∷ [])
  fastapi_path list_strategies = "/v1/paper/strategies"
  fastapi_path create_strategy = "/v1/paper/strategies"
  fastapi_path (get_strategy id) = concat ("/v1/paper/strategies/" ∷ encode id ∷ [])
  fastapi_path (delete_strategy id) = concat ("/v1/paper/strategies/" ∷ encode id ∷ [])
  fastapi_path (pause_strategy id) = concat ("/v1/paper/strategies/" ∷ encode id ∷ "/pause" ∷ [])
  fastapi_path (resume_strategy id) = concat ("/v1/paper/strategies/" ∷ encode id ∷ "/resume" ∷ [])
  fastapi_path (get_equity id) = concat ("/v1/paper/strategies/" ∷ encode id ∷ "/equity" ∷ [])
  fastapi_path (get_positions id) = concat ("/v1/paper/strategies/" ∷ encode id ∷ "/positions" ∷ [])

  -- A handler of market data, and a handler of paper trading, once the session is read.
  abbrev pub forward : Env → Incoming → Route → Option String → Handled
  forward env incoming r email =
      fastapi_proxy strip_slash encode net env incoming (fastapi_path r)
        (record { method = set_method r; user_email = email })

  abbrev pub data_route : Env → Option User → Incoming → Route → Handled
  data_route env none incoming r = turned_away
  data_route env (some u) incoming r = forward env incoming r none

  abbrev pub paper_route : Env → Option String → Incoming → Route → Handled
  paper_route env none incoming r = turned_away
  paper_route env (some e) incoming r = forward env incoming r (some e)

  abbrev pub route_if : Bool → Env → Option User → Incoming → Route → Handled
  route_if true env user incoming r = paper_route env (user_email user) incoming r
  route_if false env user incoming r = data_route env user incoming r

  -- A handler of web/app/api, from the user that `getUser` gives.
  unfoldable pub handle_route : Env → Option User → Incoming → Route → Handled
  handle_route env user incoming r = route_if (is_paper r) env user incoming r
