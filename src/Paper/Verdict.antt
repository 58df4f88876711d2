-- ===== src/Paper/Verdict.antt =====
-- The verdict at the head of the page, `heroSentence`, and the comparison with the baseline under
-- it, `BaselineComparison`. A quotient is compared by its numerator, all of them over the trades of
-- the baseline; the texts are left out.
pub mod Agrees
use polyquantlab.Common.{
  ℕ, zero, suc, ◌+◌, ◌-◌, ◌*◌, ◌≤◌, ◌<◌, ap, ◌∙◌, ltb, ◌==◌, ◌≡◌, refl, arith, Bool, true, false,
  Option, none, some, if◌then◌else◌,
}
use polyquantlab.Poll.{JobStatus, queued, running, completed, failed}
use polyquantlab.Paper.{Amount, nothing, sub, more, or_nothing}

-- The fields of the baseline that are compared.
pub record Baseline : Type 0 where
  pub status : JobStatus
  pub total_pnl : Option Amount
  pub n_trades : Option ℕ

-- The sentences of `heroSentence`.
pub data Verdict : Type 0 where
  tracking_closely outpacing underperforming : Verdict
  positions_live watching net_up net_down break_even : Verdict

abbrev pub scale : ℕ → Amount → Amount
scale n a = record { gain = n * a.gain; loss = n * a.loss }

-- `Math.abs(a)` as a number.
abbrev pub size : Amount → ℕ
size a = (a.gain - a.loss) + (a.loss - a.gain)

-- `delta` and `expected`, times the trades of the baseline.
abbrev pub delta : (live total : Amount) (closed trades : ℕ) → Amount
delta live total closed trades = sub (scale trades live) (scale closed total)

-- `Math.abs(pct) < 5`, where `pct` is 0 if nothing is expected.
abbrev pub is_close : (delta expected : Amount) → Bool
is_close d e = if size e == 0 then true else ltb (100 * size d) (5 * size e)

abbrev pub compared_if : Bool → Bool → Verdict
compared_if true behind = tracking_closely
compared_if false false = outpacing
compared_if false true = underperforming

abbrev pub compared : (live total : Amount) (closed trades : ℕ) → Verdict
compared live total closed trades =
    compared_if (is_close (delta live total closed trades) (scale closed total))
      (more nothing (delta live total closed trades))

abbrev pub alone_if : Bool → Bool → Verdict
alone_if true less = net_up
alone_if false true = net_down
alone_if false false = break_even

-- The verdict without a baseline.
abbrev pub alone : Amount → (closed monitored : ℕ) → Verdict
alone live zero zero = watching
alone live zero (suc n) = positions_live
alone live (suc c) n = alone_if (more live nothing) (more nothing live)

abbrev pub with_trades : Amount → Amount → (trades closed monitored : ℕ) → Verdict
with_trades live total zero closed n = alone live closed n
with_trades live total (suc t) zero n = alone live zero n
with_trades live total (suc t) (suc c) n = compared live total (suc c) (suc t)

abbrev pub or_zero : Option ℕ → ℕ
or_zero none = 0
or_zero (some n) = n

abbrev pub with_total : Amount → Option Amount → (trades closed monitored : ℕ) → Verdict
with_total live none trades closed n = alone live closed n
with_total live (some total) trades closed n = with_trades live total trades closed n

abbrev pub with_status : JobStatus → Amount → Baseline → (closed monitored : ℕ) → Verdict
with_status completed live b closed n = with_total live b.total_pnl (or_zero b.n_trades) closed n
with_status _ live b closed n = alone live closed n

-- `heroSentence`; `equity` is the final net P&L of the curve, if it is there.
unfoldable pub hero : (equity : Option Amount) → Option Baseline → (closed monitored : ℕ) → Verdict
hero equity none closed n = alone (or_nothing equity) closed n
hero equity (some b) closed n = with_status b.status (or_nothing equity) b closed n

-- `BaselineComparison`: nothing, the notice of a baseline that is not there yet, or how the live
-- trades compare.
pub data Comparison : Type 0 where
  hidden not_completed waiting ahead behind : Comparison

abbrev pub ahead_if : Bool → Comparison
ahead_if true = behind
ahead_if false = ahead

-- Without trades of the baseline nothing is expected.
abbrev pub tracked : Amount → Amount → (trades closed : ℕ) → Comparison
tracked live total trades zero = waiting
tracked live total zero (suc c) = ahead_if (more nothing live)
tracked live total (suc t) (suc c) = ahead_if (more nothing (delta live total (suc c) (suc t)))

abbrev pub compared_total : Amount → Option Amount → (trades closed : ℕ) → Comparison
compared_total live none trades closed = not_completed
compared_total live (some total) trades closed = tracked live total trades closed

abbrev pub compared_status : JobStatus → Amount → Baseline → (closed : ℕ) → Comparison
compared_status completed live b closed =
    compared_total live b.total_pnl (or_zero b.n_trades) closed
compared_status _ live b closed = not_completed

unfoldable pub comparison : (equity : Option Amount) → Option Baseline → (closed : ℕ) → Comparison
comparison equity none closed = hidden
comparison equity (some b) closed = compared_status b.status (or_nothing equity) b closed
