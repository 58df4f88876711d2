-- ===== src/Strategy/Submit.antt =====
-- Submitting a strategy: `buildStrategySpec`, `submit` and `submitAsPaper` of
-- web/components/StrategyBuilder.tsx. What `fetch` gives is an argument; a request is a value.
pub mod Settled
use polyquantlab.Common.{
  ℕ, ◌≡◌, refl, ◌*◌, ◌≤◌, arith, leb, String, str_eq, Bool, true, false, not, ◌&&◌, ◌||◌, List, [],
  ◌∷◌, ◌++◌, Option, none, some, concat, show_nat, if◌then◌else◌, zero, suc, length,
}
use polyquantlab.Strategy.Params.{
  Ticker, EventType, TradeLogic, FillMode, Number, decimal, is_positive,
}
use polyquantlab.Strategy.Wire.{Section, serialise_section}
use polyquantlab.Strategy.Builder.{OrderType, market, limit, BuilderState}

-- The parameters for resolution risk, and for limit orders, that a spec may have.
pub record RiskParams : Type 0 where
  pub dispute_pct : Number
  pub na_pct : Number
  pub dispute_payoff_pct : Number

pub record LimitParams : Type 0 where
  pub limit_offset_cents : Number
  pub limit_timeout_s : Number
  pub queue_aware : Option Bool

pub record StrategySpec : Type 0 where
  pub entry : Section
  pub take_profit : Section
  pub stop_loss : Section
  pub trade_logic : TradeLogic
  pub size_usd : Number
  pub max_trades_per_market : Number
  pub fill_mode : FillMode
  pub max_fill_price : Number
  pub risk : Option RiskParams
  pub limit_order : Option LimitParams

abbrev pub limit_params : OrderType → BuilderState → Option LimitParams
limit_params market state = none
limit_params limit state = some (record {
  limit_offset_cents = state.limit_offset_cents;
  limit_timeout_s = state.limit_timeout_s;
  queue_aware = if state.queue_aware then some true else none;
})

-- `buildStrategySpec`
unfoldable pub build_strategy_spec : BuilderState → StrategySpec
build_strategy_spec state = record {
  entry = serialise_section state.entry;
  take_profit = serialise_section state.take_profit;
  stop_loss = serialise_section state.stop_loss;
  trade_logic = state.trade_logic;
  size_usd = state.size_usd;
  max_trades_per_market = state.max_trades_per_market;
  fill_mode = state.fill_mode;
  max_fill_price = state.max_fill_price;
  risk =
      if is_positive state.dispute_pct || is_positive state.na_pct
      then some (record {
        dispute_pct = state.dispute_pct;
        na_pct = state.na_pct;
        dispute_payoff_pct = state.dispute_payoff_pct;
      })
      else none;
  limit_order = limit_params state.order_type state;
}

-- The bodies of the two requests; an absent date is `undefined`.
pub data Post : Type 0 where
  backtest :
      StrategySpec
      → Ticker
      → EventType
      → (market_limit : Number) → (since until : Option String) → Post
  paper :
      StrategySpec → Ticker → EventType → (size_usd : Number) → (baseline : Option String) → Post

-- The fields of a JSON object that are read.
pub record Fields : Type 0 where
  pub job_id : Option String
  pub id : Option String
  pub paper_strategy_id : Option String
  pub error : Option String
  pub detail : Option String

-- What comes back: an exception with its message, of `fetch` or of reading the JSON; `null`; or an
-- object.
pub data Got : Type 0 where
  failed : Option String → Got
  got_null : (status : ℕ) → Got
  got : (status : ℕ) → Fields → Got

-- `a || b` on texts that may be absent or empty.
abbrev pub first_if : Bool → String → Option String → Option String
first_if true a b = b
first_if false a b = some a

abbrev pub or_text : Option String → Option String → Option String
or_text none b = b
or_text (some a) b = first_if (str_eq a "") a b

abbrev pub else_text : Option String → String → String
else_text none d = d
else_text (some s) d = s

abbrev pub is_ok : ℕ → Bool
is_ok status = leb 200 status && leb status 299

-- What the user sees in the end: whether the button still waits, the toasts, and the page opened.
pub record Seen : Type 0 where
  pub submitting : Bool
  pub errors : List String
  pub successes : List String
  pub page : Option String

abbrev pub complaint : String → Seen
complaint text = record { submitting = false; errors = text ∷ []; successes = []; page = none }

abbrev pub opened : List String → String → Seen
opened toasts page = record { submitting = true; errors = []; successes = toasts; page = some page }

-- `since || undefined`
abbrev pub date_if : Bool → String → Option String
date_if true s = none
date_if false s = some s

abbrev pub backtest_post : BuilderState → Number → Post
backtest_post state market_limit =
    backtest (build_strategy_spec state) state.ticker state.event_type market_limit none none

abbrev pub submit_post : BuilderState → Post
submit_post state =
    backtest (build_strategy_spec state) state.ticker state.event_type state.market_limit
      (date_if (str_eq state.since "") state.since) (date_if (str_eq state.until "") state.until)

abbrev pub job_page : Option String → Seen
job_page none = complaint "Backend returned no job_id"
job_page (some id) = opened [] (concat ("/dashboard/backtest/" ∷ id ∷ []))

abbrev pub failure_text : String → ℕ → String
failure_text what status = concat (what ∷ " (" ∷ show_nat status ∷ ")" ∷ [])

abbrev pub submit_ok : Bool → ℕ → Fields → Seen
submit_ok true status f = job_page (or_text (or_text f.job_id f.id) none)
submit_ok false status f =
    complaint (else_text (or_text f.error none) (failure_text "Submit failed" status))

abbrev pub null_ok : String → String → Bool → ℕ → Seen
null_ok type_error what true status = complaint type_error
null_ok type_error what false status = complaint (failure_text what status)

-- The end of `submit`; `type_error` is the message of reading a field of `null`.
unfoldable pub submit_seen : String → Got → Seen
submit_seen type_error (failed m) = complaint (else_text (or_text m none) "Network error")
submit_seen type_error (got_null status) = null_ok type_error "Submit failed" (is_ok status) status
submit_seen type_error (got status f) = submit_ok (is_ok status) status f

-- What the component sends, in order, and what the user sees.
pub record Submission : Type 0 where
  pub posts : List Post
  pub seen : Seen

abbrev power_of_ten : ℕ → ℕ
power_of_ten zero = 1
power_of_ten (suc n) = 10 * power_of_ten n

-- `Math.max(50, n)`
abbrev pub at_least_50 : Number → Number
at_least_50 n = if leb (50 * power_of_ten n.places) n.digits && not n.minus then n else decimal 50 0

module _ (type_error : String) (answer : Post → Got) where
  -- `submit`
  unfoldable pub submit : BuilderState → Submission
  submit state = record {
    posts = submit_post state ∷ [];
    seen = submit_seen type_error (answer (submit_post state));
  }

  -- The id of the baseline: only of a reply that is ok and has one.
  abbrev pub baseline_if : Bool → Fields → Option String
  baseline_if true f = or_text (or_text f.job_id f.id) none
  baseline_if false f = none

  abbrev pub baseline_id : Got → Option String
  baseline_id (failed m) = none
  baseline_id (got_null status) = none
  baseline_id (got status f) = baseline_if (is_ok status) f

  abbrev pub paper_post : BuilderState → Option String → Post
  paper_post state baseline =
      paper (build_strategy_spec state) state.ticker state.event_type state.size_usd baseline

  abbrev pub paper_page : Option String → Seen
  paper_page none = complaint "Backend returned no paper_strategy_id"
  paper_page (some id) =
      opened ("Paper trading started — opening detail page…" ∷ [])
        (concat ("/dashboard/paper/" ∷ id ∷ []))

  abbrev pub paper_ok : Bool → ℕ → Fields → Seen
  paper_ok true status f = paper_page (or_text f.paper_strategy_id none)
  paper_ok false status f =
      complaint (else_text (or_text f.detail (or_text f.error none)) (failure_text "Failed" status))

  unfoldable pub paper_seen : Got → Seen
  paper_seen (failed m) = complaint (else_text (or_text m none) "Network error")
  paper_seen (got_null status) = null_ok type_error "Failed" (is_ok status) status
  paper_seen (got status f) = paper_ok (is_ok status) status f

  -- `submitAsPaper`
  unfoldable pub submit_as_paper : BuilderState → Submission
  submit_as_paper state =
      let first = backtest_post state (at_least_50 state.market_limit) in
      let second = paper_post state (baseline_id (answer first)) in
      record { posts = first ∷ second ∷ []; seen = paper_seen (answer second) }
