-- ===== src/Paper/Verdict/Agrees.antt =====
-- How the verdict and the comparison of web/components/PaperStrategyDetail.tsx stand together.
use polyquantlab.Common.{
  ℕ, zero, suc, ◌+◌, ◌-◌, ◌*◌, ◌≤◌, ◌<◌, ap, ◌∙◌, ltb, ◌==◌, ◌≡◌, refl, arith, Bool, true, false,
  Option, none, some, if◌then◌else◌,
}
use polyquantlab.Poll.{JobStatus, queued, running, completed, failed}
use polyquantlab.Paper.{Amount, nothing, more, or_nothing}
use polyquantlab.Paper.Verdict.{
  Baseline, delta, size, scale, is_close, compared_if, alone_if, alone, with_trades, or_zero,
  with_total, with_status, hero, Comparison, ahead_if, tracked, compared_total, compared_status,
  comparison, hidden, not_completed, waiting, ahead, behind, Verdict, tracking_closely, outpacing,
  underperforming, positions_live, watching, net_up, net_down, break_even,
}

-- The verdicts without a baseline, of trades that are closed, and of none.
pub data IsClosed : Verdict → Type 0 where
  up : IsClosed net_up
  down : IsClosed net_down
  even : IsClosed break_even

pub data IsOpen : Verdict → Type 0 where
  live_now : IsOpen positions_live
  none_yet : IsOpen watching

pub data IsAlone (v : Verdict) : Type 0 where
  some_closed : IsClosed v → IsAlone v
  none_closed : IsOpen v → IsAlone v

-- What the live trades earned, and what is expected of them: both times the trades of the baseline,
-- and either with what the other lost.
abbrev pub live_side : (a total : Amount) (c n : ℕ) → ℕ
live_side a total c n = n * a.gain + c * total.loss

abbrev pub expected_side : (a total : Amount) (c n : ℕ) → ℕ
expected_side a total c n = n * a.loss + c * total.gain

-- 5% of what is expected, times 100.
abbrev pub margin : (total : Amount) (c : ℕ) → ℕ
margin total c = 5 * (c * total.gain - c * total.loss + (c * total.loss - c * total.gain))

-- The live trades differ from what is expected by less than 5%, or nothing is expected.
pub data IsClose (a total : Amount) (c n : ℕ) : Type 0 where
  nothing_expected : c * total.gain ≡ c * total.loss → IsClose a total c n
  within :
      100 * live_side a total c n < 100 * expected_side a total c n + margin total c
      → 100 * expected_side a total c n < 100 * live_side a total c n + margin total c
      → IsClose a total c n

-- The verdict and the comparison where trades of both are closed.
pub data Stands (a total : Amount) (c n : ℕ) : Verdict → Comparison → Type 0 where
  leads :
      0 < margin total c
      → 100 * expected_side a total c n + margin total c ≤ 100 * live_side a total c n
      → Stands a total c n outpacing ahead
  trails :
      0 < margin total c
      → 100 * live_side a total c n + margin total c ≤ 100 * expected_side a total c n
      → Stands a total c n underperforming behind
  close_ahead :
      IsClose a total c n
      → expected_side a total c n ≤ live_side a total c n
      → Stands a total c n tracking_closely ahead
  close_behind :
      IsClose a total c n
      → live_side a total c n < expected_side a total c n
      → Stands a total c n tracking_closely behind

-- The same where the baseline has no trades.
pub data StandsAlone (a : Amount) : Verdict → Comparison → Type 0 where
  up_ahead : a.loss < a.gain → StandsAlone a net_up ahead
  even_ahead : a.loss ≡ a.gain → StandsAlone a break_even ahead
  down_behind : a.gain < a.loss → StandsAlone a net_down behind

-- A baseline that is not there yet.
pub data IsMissing (b : Baseline) : Type 0 where
  waits : b.status ≡ queued → IsMissing b
  runs : b.status ≡ running → IsMissing b
  fails : b.status ≡ failed → IsMissing b
  no_total : b.total_pnl ≡ none → IsMissing b

-- The verdict and the comparison, of what the live trades earned and of `c` that are closed.
pub data Agrees (a : Amount) (c : ℕ) : Option Baseline → Verdict → Comparison → Type 0 where
  both :
      {b : Baseline} {total : Amount} {v : Verdict} {x : Comparison} (n : ℕ)
      → b.status ≡ completed
      → b.total_pnl ≡ some total
      → b.n_trades ≡ some n
      → 0 < n
      → 0 < c
      → Stands a total c n v x
      → Agrees a c (some b) v x
  without_trades :
      {b : Baseline} {v : Verdict} {x : Comparison}
      → b.status ≡ completed
      → or_zero b.n_trades ≡ 0
      → 0 < c
      → StandsAlone a v x
      → Agrees a c (some b) v x
  not_begun : {b : Baseline} {v : Verdict} → c ≡ 0 → IsOpen v → Agrees a c (some b) v waiting
  not_there :
      {b : Baseline} {v : Verdict} → IsMissing b → IsAlone v → Agrees a c (some b) v not_completed
  no_baseline : {v : Verdict} → IsAlone v → Agrees a c none v hidden

tracked_closely :
    (z : Bool) (a total : Amount) (c n : ℕ)
    → size (scale c total) == 0 ≡ z
    → (if z then true else ltb (100 * size (delta a total c n)) (5 * size (scale c total))) ≡ true
    → IsClose a total c n
tracked_closely true a total c n e h = nothing_expected (ground arith)
tracked_closely false a total c n e h = within (ground arith) (ground arith)

compared-Stands :
    (k b : Bool) (a total : Amount) (c n : ℕ)
    → is_close (delta a total c n) (scale c total) ≡ k
    → more nothing (delta a total c n) ≡ b
    → Stands a total c n (compared_if k b) (ahead_if b)
compared-Stands true true a total c n e h =
    close_behind (tracked_closely _ a total c n refl e) (ground arith)
compared-Stands true false a total c n e h =
    close_ahead (tracked_closely _ a total c n refl e) (ground arith)
compared-Stands false true a total c n e h = trails (ground arith) (ground arith)
compared-Stands false false a total c n e h = leads (ground arith) (ground arith)

alone_if-StandsAlone :
    (a : Amount) (b c : Bool)
    → more a nothing ≡ b
    → more nothing a ≡ c
    → StandsAlone a (alone_if b c) (ahead_if c)
alone_if-StandsAlone a true true e f = absurd (ground arith)
alone_if-StandsAlone a true false e f = up_ahead (ground arith)
alone_if-StandsAlone a false true e f = down_behind (ground arith)
alone_if-StandsAlone a false false e f = even_ahead (ground arith)

alone_if-IsClosed : (b c : Bool) → IsClosed (alone_if b c)
alone_if-IsClosed true c = up
alone_if-IsClosed false true = down
alone_if-IsClosed false false = even

alone-IsOpen : (a : Amount) (n : ℕ) → IsOpen (alone a 0 n)
alone-IsOpen a zero = none_yet
alone-IsOpen a (suc n) = live_now

alone-IsAlone : (a : Amount) (c n : ℕ) → IsAlone (alone a c n)
alone-IsAlone a zero n = none_closed (alone-IsOpen a n)
alone-IsAlone a (suc c) n = some_closed (alone_if-IsClosed (more a nothing) (more nothing a))

module _ (a : Amount) (b : Baseline) (s : b.status ≡ completed) where
  with_trades-Agrees :
      (total : Amount) (trades : Option ℕ) (t c n : ℕ)
      → b.total_pnl ≡ some total
      → b.n_trades ≡ trades
      → or_zero trades ≡ t
      → Agrees a c (some b) (with_trades a total t c n) (tracked a total t c)
  with_trades-Agrees total trades zero zero n e f g = not_begun refl (alone-IsOpen a n)
  with_trades-Agrees total trades zero (suc c) n e f g =
      without_trades s (ap or_zero f ∙ g) (omega arith) (alone_if-StandsAlone a _ _ refl refl)
  with_trades-Agrees total trades (suc t) zero n e f g = not_begun refl (alone-IsOpen a n)
  with_trades-Agrees total none (suc t) (suc c) n e f g = absurd (omega (arith, g))
  with_trades-Agrees total (some k) (suc t) (suc c) n e f g =
      both (suc t) s e (f ∙ ap some g) (omega arith) (omega arith)
        (compared-Stands _ _ a total (suc c) (suc t) refl refl)

  with_total-Agrees :
      (total : Option Amount) (c n : ℕ)
      → b.total_pnl ≡ total
      → Agrees a c
          (some b)
          (with_total a total (or_zero b.n_trades) c n)
          (compared_total a total (or_zero b.n_trades) c)
  with_total-Agrees none c n e = not_there (no_total e) (alone-IsAlone a c n)
  with_total-Agrees (some total) c n e =
      with_trades-Agrees total b.n_trades (or_zero b.n_trades) c n e refl refl

with_status-Agrees :
    (s : JobStatus) (a : Amount) (b : Baseline) (c n : ℕ)
    → b.status ≡ s
    → Agrees a c (some b) (with_status s a b c n) (compared_status s a b c)
with_status-Agrees completed a b c n e = with_total-Agrees a b e b.total_pnl c n refl
with_status-Agrees queued a b c n e = not_there (waits e) (alone-IsAlone a c n)
with_status-Agrees running a b c n e = not_there (runs e) (alone-IsAlone a c n)
with_status-Agrees failed a b c n e = not_there (fails e) (alone-IsAlone a c n)

-- How the verdict and the comparison of the same trades and baseline stand together. With a completed
-- baseline that has trades, and a closed live trade, the comparison is "behind" below what is expected
-- and "ahead" otherwise; the verdict is tracking closely if nothing is expected or the difference is
-- less than 5% of it, over either of the two, and else outpacing over "ahead" and underperforming over
-- "behind". With a completed baseline without trades the verdict is net up or break-even over "ahead",
-- and net down over "behind". Where no trade is closed, or the baseline is not there, not completed or
-- without a total, the verdict is one without a baseline and the comparison takes no side.
pub hero-comparison :
    (equity : Option Amount) (baseline : Option Baseline) (closed monitored : ℕ)
    → Agrees
        (or_nothing equity)
        closed
        baseline
        (hero equity baseline closed monitored)
        (comparison equity baseline closed)
unfolding hero comparison
hero-comparison equity none closed n = no_baseline (alone-IsAlone (or_nothing equity) closed n)
hero-comparison equity (some b) closed n =
    with_status-Agrees b.status (or_nothing equity) b closed n refl
