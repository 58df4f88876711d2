-- ===== src/Live.antt =====
-- The live terminal of web/components/LiveTerminal.tsx: its two effects, the order of the boards, the
-- mark of a mispriced market and the countdown. Probabilities are natural numbers of parts of `one`.
pub mod Single
mod Tests
use polyquantlab.Common.{
  ℕ, zero, suc, ◌+◌, ◌-◌, ◌*◌, ◌/◌, ◌%◌, ltb, leb, ◌≡◌, not, ◌&&◌, String, str_eq, Bool, true,
  false, List, [], ◌∷◌, ◌++◌, Option, none, some, concat, show_nat, find, if◌then◌else◌,
}
use polyquantlab.Strategy.Submit.{or_text, else_text, is_ok}
use polyquantlab.Strategy.Params.{Ticker, btc}
use polyquantlab.Clock.{pad2}

pub record Board : Type 0 where
  pub event_type : String
  pub market_id : String

-- A reply: its status, and its rows or an exception of reading the JSON.
pub data Body (A : Type 0) : Type 0 where
  unreadable : (message : Option String) → Body A
  rows : List A → Body A

pub record Reply (A : Type 0) : Type 0 where
  pub status : ℕ
  pub body : Body A

-- The two replies that `Promise.all` waits for, or its exception.
pub data Pair : Type 0 where
  rejected : (message : Option String) → Pair
  both : Reply Board → Reply String → Pair

-- The state; trades are opaque texts. With `inflight` goes the ticker that is asked for, and with the
-- boards the one that they are of.
pub record Terminal : Type 0 where
  pub ticker : Ticker
  pub boards : List Board
  pub trades : List String
  pub error : Option String
  pub last_tick : ℕ
  pub inflight : Bool
  pub asked : List Ticker
  pub settled : ℕ

abbrev pub initial_terminal : Terminal
initial_terminal = record {
  ticker = btc;
  boards = [];
  trades = [];
  error = none;
  last_tick = 0;
  inflight = false;
  asked = [];
  settled = 0;
}

abbrev pub start_if : Bool → Terminal → Terminal
start_if true t = t
start_if false t = record {
  ticker = t.ticker;
  boards = t.boards;
  trades = t.trades;
  error = t.error;
  last_tick = t.last_tick;
  inflight = true;
  asked = t.ticker ∷ t.asked;
  settled = t.settled;
}

-- `fetchAll` up to its requests, when the effect or the interval calls it.
unfoldable pub fetch_all : Terminal → Terminal
fetch_all t = start_if t.inflight t

-- The button of another ticker: the effect calls the new `fetchAll`.
unfoldable pub set_ticker : Ticker → Terminal → Terminal
set_ticker k t = fetch_all (record {
  ticker = k;
  boards = t.boards;
  trades = t.trades;
  error = t.error;
  last_tick = t.last_tick;
  inflight = t.inflight;
  asked = t.asked;
  settled = t.settled;
})

abbrev pub fail_all : Option String → Terminal → Terminal
fail_all m t = record {
  ticker = t.ticker;
  boards = t.boards;
  trades = t.trades;
  error = some (else_text (or_text m none) "fetch failed");
  last_tick = t.last_tick;
  inflight = false;
  asked = t.asked;
  settled = suc t.settled;
}

abbrev pub show_all : (now : ℕ) → List Board → List String → Terminal → Terminal
show_all now bs ts t = record {
  ticker = t.ticker;
  boards = bs;
  trades = ts;
  error = none;
  last_tick = now;
  inflight = false;
  asked = t.asked;
  settled = suc t.settled;
}

abbrev pub take_rows : ℕ → Body Board → Body String → Terminal → Terminal
take_rows now (unreadable m) ts t = fail_all m t
take_rows now (rows bs) (unreadable m) t = fail_all m t
take_rows now (rows bs) (rows ts) t = show_all now bs ts t

-- `throw new Error(…)` at a status of failure.
abbrev pub status_text : String → ℕ → Option String
status_text what status = some (concat (what ∷ " " ∷ show_nat status ∷ []))

abbrev pub take_both : Bool → Bool → ℕ → Reply Board → Reply String → Terminal → Terminal
take_both false u now b r t = fail_all (status_text "live-board" b.status) t
take_both true false now b r t = fail_all (status_text "recent-trades" r.status) t
take_both true true now b r t = take_rows now b.body r.body t

-- The rest of `fetchAll`, when the requests are settled at the time `now`.
unfoldable pub settle_all : (now : ℕ) → Pair → Terminal → Terminal
settle_all now (rejected m) t = fail_all m t
settle_all now (both b r) t = take_both (is_ok b.status) (is_ok r.status) now b r t

-- `EVENT_TYPE_ORDER`
abbrev pub event_type_order : List String
event_type_order = "5m" ∷ "15m" ∷ "1h" ∷ "4h" ∷ "daily_up_down" ∷ []

-- `byType[t]`: the last board of this type.
abbrev pub latest_of : String → Option Board → List Board → Option Board
latest_of t o [] = o
latest_of t o (b ∷ bs) = latest_of t (if str_eq b.event_type t then some b else o) bs

abbrev pub prepend : Option Board → List Board → List Board
prepend none bs = bs
prepend (some b) bs = b ∷ bs

abbrev pub boards_in : List String → List Board → List Board
boards_in [] bs = []
boards_in (t ∷ ts) bs = prepend (latest_of t none bs) (boards_in ts bs)

-- `orderedBoards`
unfoldable pub ordered_boards : List Board → List Board
ordered_boards bs = boards_in event_type_order bs

-- The overlay of a market that history prices otherwise.
pub record Bucket : Type 0 where
  pub lo : ℕ
  pub hi : ℕ
  pub up_rate : Option ℕ
  pub n_markets : ℕ

pub record Mispricing : Type 0 where
  pub up_rate : ℕ
  pub n : ℕ
  pub under_priced : Bool
  pub edge : ℕ

-- `Math.abs(edgePp) < 5`, or the mark.
abbrev pub marked : (one mid up n : ℕ) → Option Mispricing
marked one mid up n =
    if ltb (100 * ((up - mid) + (mid - up))) (5 * one)
    then none
    else some
        (record { up_rate = up; n = n; under_priced = leb mid up; edge = (up - mid) + (mid - up) })

abbrev pub of_rate : (one mid n : ℕ) → Option ℕ → Option Mispricing
of_rate one mid n none = none
of_rate one mid n (some up) = if ltb n 10 then none else marked one mid up n

abbrev pub of_bucket : (one mid : ℕ) → Option Bucket → Option Mispricing
of_bucket one mid none = none
of_bucket one mid (some b) = of_rate one mid b.n_markets b.up_rate

-- `computeMispricing`
unfoldable pub compute_mispricing : (one : ℕ) → (mid : Option ℕ) → List Bucket → Option Mispricing
compute_mispricing one none bs = none
compute_mispricing one (some mid) bs =
    of_bucket one mid (find (λ b. leb b.lo mid && ltb mid b.hi) bs)

-- `formatTimeToResolution`
unfoldable pub format_time_to_resolution : Option ℕ → String
format_time_to_resolution none = "—"
format_time_to_resolution (some secs) =
    if ltb secs 60
    then concat (show_nat secs ∷ "s" ∷ [])
    else if ltb secs 3600
    then concat (pad2 (secs / 60) ∷ ":" ∷ pad2 (secs % 60) ∷ [])
    else concat (show_nat (secs / 3600) ∷ "h " ∷ show_nat ((secs % 3600) / 60) ∷ "m" ∷ [])

-- `useCountdown`: the whole seconds left, from below by 0.
abbrev pub countdown_of : Option ℕ → (now : ℕ) → Option ℕ
countdown_of none now = none
countdown_of (some target) now = some ((target - now) / 1000)

abbrev pub use_countdown : Option ℕ → (now : ℕ) → String
use_countdown target now = format_time_to_resolution (countdown_of target now)
