-- ===== src/Paper/Page.antt =====
-- What the page of a paper strategy loads: `refresh` of web/components/PaperStrategyDetail.tsx, and
-- the pill with the time since the last fill. The four requests are arguments.
use polyquantlab.Common.{
  ℕ, ◌-◌, ◌/◌, ltb, max, String, Bool, true, false, List, [], ◌∷◌, Option, none, some, concat,
  show_nat, if◌then◌else◌,
}
use polyquantlab.Strategy.Submit.{or_text, else_text, is_ok}
use polyquantlab.Paper.{Amount, Position}
use polyquantlab.Paper.Verdict.{Baseline}

-- A reply as `refresh` reads it: its status, and what reading its JSON gives, or an exception.
pub data Reading (A : Type 0) : Type 0 where
  unreadable : (message : Option String) → Reading A
  read : A → Reading A

pub record Reply (A : Type 0) : Type 0 where
  pub status : ℕ
  pub body : Reading A

pub record Strategy : Type 0 where
  pub name : Option String
  pub active : Bool
  pub baseline_backtest_id : Option String

pub record EquityCurve : Type 0 where
  pub final_net_pnl : Amount
  pub points : List Amount

pub record Detail : Type 0 where
  pub strategy : Option Strategy
  pub positions : List Position
  pub equity : Option EquityCurve
  pub baseline : Option Baseline
  pub error : Option String

abbrev pub with_strategy : Strategy → Detail → Detail
with_strategy s d = record {
  strategy = some s;
  positions = d.positions;
  equity = d.equity;
  baseline = d.baseline;
  error = d.error;
}

abbrev pub with_positions : List Position → Detail → Detail
with_positions ps d = record {
  strategy = d.strategy;
  positions = ps;
  equity = d.equity;
  baseline = d.baseline;
  error = d.error;
}

abbrev pub with_equity : EquityCurve → Detail → Detail
with_equity e d = record {
  strategy = d.strategy;
  positions = d.positions;
  equity = some e;
  baseline = d.baseline;
  error = d.error;
}

abbrev pub with_baseline : Option Baseline → Detail → Detail
with_baseline b d = record {
  strategy = d.strategy;
  positions = d.positions;
  equity = d.equity;
  baseline = b;
  error = d.error;
}

abbrev pub with_error : Option String → Detail → Detail
with_error e d = record {
  strategy = d.strategy;
  positions = d.positions;
  equity = d.equity;
  baseline = d.baseline;
  error = e;
}

-- The handler of the outer `catch`.
abbrev pub caught : Option String → Detail → Detail
caught m d = with_error (some (else_text (or_text m none) "Network error")) d

-- The baseline is best effort: what does not come leaves the old one.
abbrev pub take_baseline : Bool → Reading Baseline → Detail → Detail
take_baseline true (read b) d = with_baseline (some b) d
take_baseline _ _ d = d

abbrev pub baseline_reply : Option (Reply Baseline) → Detail → Detail
baseline_reply none d = d
baseline_reply (some r) d = take_baseline (is_ok r.status) r.body d

abbrev pub load_baseline : (String → Option (Reply Baseline)) → Option String → Detail → Detail
load_baseline fetch none d = with_baseline none d
load_baseline fetch (some id) d = baseline_reply (fetch id) d

-- The end of `refresh`, from the equity curve on; `id` is the baseline's, if it is not empty.
abbrev pub take_equity :
    (String → Option (Reply Baseline))
    → Option String
    → Bool
    → Reading EquityCurve
    → Detail
    → Detail
take_equity fetch id true (unreadable m) d = caught m d
take_equity fetch id true (read e) d = with_error none (load_baseline fetch id (with_equity e d))
take_equity fetch id false e d = with_error none (load_baseline fetch id d)

-- `body.positions ?? []`
abbrev pub or_empty : Option (List Position) → List Position
or_empty none = []
or_empty (some ps) = ps

abbrev pub take_positions :
    Bool → Reading (Option (List Position)) → (Detail → Detail) → Detail → Detail
take_positions true (unreadable m) rest d = caught m d
take_positions true (read ps) rest d = rest (with_positions (or_empty ps) d)
take_positions false ps rest d = rest d

-- The three replies that come together.
pub record Replies : Type 0 where
  pub strategy : Reply Strategy
  pub positions : Reply (Option (List Position))
  pub equity : Reply EquityCurve

abbrev pub take_strategy :
    (String → Option (Reply Baseline)) → Bool → Reading Strategy → Replies → Detail → Detail
take_strategy fetch false s r d = with_error (some "Strategy not found or unauthorised.") d
take_strategy fetch true (unreadable m) r d = caught m d
take_strategy fetch true (read s) r d =
    take_positions (is_ok r.positions.status) r.positions.body
      (take_equity fetch (or_text s.baseline_backtest_id none) (is_ok r.equity.status)
        r.equity.body)
      (with_strategy s d)

-- `Promise.all`: the exception of one request, or all the replies.
pub data Together : Type 0 where
  rejected : (message : Option String) → Together
  fetched : Replies → Together

-- `refresh`
unfoldable pub refresh : (String → Option (Reply Baseline)) → Together → Detail → Detail
refresh fetch (rejected m) d = caught m d
refresh fetch (fetched r) d = take_strategy fetch (is_ok r.strategy.status) r.strategy.body r d

-- `ageMinutes`: of the latest position, in milliseconds since the epoch.
abbrev pub latest : ℕ → List Position → ℕ
latest t [] = t
latest t (p ∷ ps) = latest (max t p.opened_at) ps

abbrev pub age_minutes : (now : ℕ) → List Position → Option ℕ
age_minutes now [] = none
age_minutes now (p ∷ ps) = some ((now - latest p.opened_at ps) / 60000)

abbrev pub age_text : Option ℕ → String
age_text none = "no fills yet"
age_text (some n) =
    if ltb n 1
    then "just now"
    else if ltb n 60
    then concat (show_nat n ∷ "m ago" ∷ [])
    else concat (show_nat (n / 60) ∷ "h ago" ∷ [])

-- `LiveStatusPill`
unfoldable pub live_status_pill : (active : Bool) → (monitoring : ℕ) → Option ℕ → String
live_status_pill false monitoring age = "Paused"
live_status_pill true monitoring age =
    concat ("Live·" ∷ show_nat monitoring ∷ " open · last fill " ∷ age_text age ∷ [])
