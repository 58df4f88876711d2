-- ===== src/Live/Single.antt =====
-- How many fetches of the terminal are under way.
use polyquantlab.Common.{
  under_way, counted, ℕ, ◌+◌, ◌≡◌, refl, arith, Bool, true, false, length, String,
}
use polyquantlab.Strategy.Submit.{is_ok}
use polyquantlab.Strategy.Params.{Ticker}
use polyquantlab.Live.{
  Terminal, initial_terminal, start_if, fetch_all, set_ticker, Pair, rejected, both, Body,
  unreadable, rows, Board, Reply, take_rows, take_both, settle_all,
}

-- A step: the interval, a button, or the end of the fetch that is under way.
pub data Step : Terminal → Terminal → Type 0 where
  ticks : (t : Terminal) → Step t (fetch_all t)
  chooses : (k : Ticker) (t : Terminal) → Step t (set_ticker k t)
  settles : (now : ℕ) (r : Pair) {t : Terminal} → t.inflight ≡ true → Step t (settle_all now r t)

pub data Reachable : Terminal → Type 0 where
  start : Reachable initial_terminal
  step : {s t : Terminal} → Reachable s → Step s t → Reachable t

abbrev IsSingle : Terminal → Type 0
IsSingle t = length t.asked ≡ t.settled + under_way t.inflight

start_if-IsSingle :
    (b : Bool) (t : Terminal) → t.inflight ≡ b → IsSingle t → IsSingle (start_if b t)
start_if-IsSingle true t e h = h
start_if-IsSingle false t e h =
    let k : length t.asked ≡ t.settled + under_way false = counted t.settled e h in omega arith

take_rows-IsSingle :
    (now : ℕ) (b : Body Board) (r : Body String) (t : Terminal)
    → length t.asked ≡ t.settled + 1
    → IsSingle (take_rows now b r t)
take_rows-IsSingle now (unreadable m) r t h = omega arith
take_rows-IsSingle now (rows bs) (unreadable m) t h = omega arith
take_rows-IsSingle now (rows bs) (rows ts) t h = omega arith

take_both-IsSingle :
    (u v : Bool) (now : ℕ) (b : Reply Board) (r : Reply String) (t : Terminal)
    → length t.asked ≡ t.settled + 1
    → IsSingle (take_both u v now b r t)
take_both-IsSingle false v now b r t h = omega arith
take_both-IsSingle true false now b r t h = omega arith
take_both-IsSingle true true now b r t h = take_rows-IsSingle now b.body r.body t h

Step-IsSingle : {s t : Terminal} → IsSingle s → Step s t → IsSingle t
unfolding fetch_all set_ticker settle_all
Step-IsSingle h (ticks t) = start_if-IsSingle t.inflight t refl h
Step-IsSingle h (chooses k t) = start_if-IsSingle t.inflight _ refl h
Step-IsSingle h (settles now (rejected m) {t} e) =
    let k : length t.asked ≡ t.settled + under_way true = counted t.settled e h in omega arith
Step-IsSingle h (settles now (both b r) {t} e) =
    take_both-IsSingle (is_ok b.status) (is_ok r.status) now b r t (counted t.settled e h)

-- Whatever the user chooses, and whenever the interval and the replies come: at most one fetch of
-- the terminal is under way, namely just when `inflight` is set.
reachable-IsSingle :
    {t : Terminal} → Reachable t → length t.asked ≡ t.settled + under_way t.inflight
reachable-IsSingle start = refl
reachable-IsSingle (step r s) = Step-IsSingle (reachable-IsSingle r) s
