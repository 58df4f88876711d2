-- ===== src/Poll.antt =====
-- Waiting for a job: the effect that polls in web/components/BacktestResult.tsx and
-- web/components/SweepResult.tsx, what the two pages show meanwhile, and their estimate of the time
-- left. What the network gives and the clock are arguments.
pub mod Ends
pub mod Shows
mod Tests
use polyquantlab.Common.{
  ℕ, zero, suc, ◌+◌, ◌-◌, ◌*◌, ◌/◌, max, ltb, leb, ◌==◌, ◌||◌, ◌&&◌, String, str_eq, Bool, true,
  false, List, [], ◌∷◌, Option, none, some, concat, show_nat, if◌then◌else◌,
}
use polyquantlab.Strategy.Submit.{or_text, else_text, is_ok}

pub data JobStatus : Type 0 where
  queued running completed failed : JobStatus

-- The fields of `params` that are read; a number that is absent or 0 is `none`.
pub record JobParams : Type 0 where
  pub market_limit : Option ℕ
  pub strategy_type : Option String
  pub x_steps : Option ℕ
  pub y_steps : Option ℕ

-- A job; `A` is the type of its result.
pub record JobRecord (A : Type 0) : Type 0 where
  pub job_id : String
  pub status : JobStatus
  pub started_at : Option ℕ
  pub params : JobParams
  pub result : Option A
  pub error : Option String

-- What a request comes to: an exception of `fetch`, or a status with what reading the JSON gives:
-- an exception, `null`, or a job.
pub data Body (A : Type 0) : Type 0 where
  unreadable : (message : Option String) → Body A
  null_body : Body A
  job_body : JobRecord A → Body A

pub data Reply (A : Type 0) : Type 0 where
  crashed : (message : Option String) → Reply A
  replied : (status : ℕ) → Body A → Reply A

-- One round: the reply, whether the page is `cancelled` when the code goes on, what `Date.now()` is
-- then, and whether the page is left while the timer waits.
pub record Round (A : Type 0) : Type 0 where
  pub reply : Reply A
  pub cancelled : Bool
  pub now : ℕ
  pub cleared : Bool

pub record PollState (A : Type 0) : Type 0 where
  pub job : Option (JobRecord A)
  pub error : Option String
  pub gave_up : Bool

-- Where the two pages differ.
pub record Page : Type 0 where
  pub not_found : String
  pub failed_text : ℕ → String
  pub poll_ms : ℕ
  pub give_up_ms : ℕ

abbrev pub backtest_page : Page
backtest_page = record {
  not_found = "Job not found (it may have expired).";
  failed_text = λ status. concat ("Failed to fetch job (" ∷ show_nat status ∷ ")" ∷ []);
  poll_ms = 1200;
  give_up_ms = 360000;
}

abbrev pub sweep_page : Page
sweep_page = record {
  not_found = "Sweep not found (may have expired).";
  failed_text = λ status. concat ("Failed: " ∷ show_nat status ∷ []);
  poll_ms = 1500;
  give_up_ms = 360000;
}

abbrev pub is_final : JobStatus → Bool
is_final completed = true
is_final failed = true
is_final _ = false

-- What a round leads to: the poll is over, or the timer is set.
pub data Next (A : Type 0) : Type 0 where
  over again : PollState A → Next A

module _ {A : Type 0} where
  abbrev pub initial : PollState A
  initial = record { job = none; error = none; gave_up = false }

  -- `if (!cancelled) setError(…)`
  abbrev pub set_error : Bool → String → PollState A → PollState A
  set_error true text s = s
  set_error false text s = record { job = s.job; error = some text; gave_up = s.gave_up }

  -- `setGaveUp(true)` when more than the time limit has passed, or else the timer.
  abbrev pub at_limit : Bool → PollState A → Next A
  at_limit true s = over (record { job = s.job; error = s.error; gave_up = true })
  at_limit false s = again s

  abbrev pub unless_final : Bool → Bool → PollState A → Next A
  unless_final true late s = over s
  unless_final false late s = at_limit late s

  abbrev pub set_job : Option (JobRecord A) → PollState A → PollState A
  set_job job s = record { job = job; error = s.error; gave_up = s.gave_up }

  -- From `if (cancelled) return` on. Reading the status of `null` throws `type_error`.
  abbrev pub take_body : String → Bool → Bool → Body A → PollState A → Next A
  take_body type_error cancelled late (unreadable m) s =
      over (set_error cancelled (else_text (or_text m none) "Network error") s)
  take_body type_error true late _ s = over s
  take_body type_error false late null_body s = over (
      set_error false (else_text (or_text (some type_error) none) "Network error") (set_job none s))
  take_body type_error false late (job_body j) s =
      unless_final (is_final j.status) late (set_job (some j) s)

  abbrev pub when_ok : Bool → Page → ℕ → String → Bool → Bool → Body A → PollState A → Next A
  when_ok true page status type_error cancelled late b s = take_body type_error cancelled late b s
  when_ok false page status type_error cancelled late b s =
      over (set_error cancelled (page.failed_text status) s)

  abbrev pub unless_missing : Bool → Page → ℕ → String → Bool → Bool → Body A → PollState A → Next A
  unless_missing true page status type_error cancelled late b s =
      over (set_error cancelled page.not_found s)
  unless_missing false page status type_error cancelled late b s =
      when_ok (is_ok status) page status type_error cancelled late b s

  -- One call of `poll`, begun when the effect ran at `start`.
  abbrev pub take_reply : Reply A → Page → String → Bool → Bool → PollState A → Next A
  take_reply (crashed m) page type_error cancelled late s =
      over (set_error cancelled (else_text (or_text m none) "Network error") s)
  take_reply (replied status b) page type_error cancelled late s =
      unless_missing (status == 404) page status type_error cancelled late b s

  -- One call of `poll`, when the effect ran at `start`.
  unfoldable pub poll_once : Page → String → ℕ → Round A → PollState A → Next A
  poll_once page type_error start r s =
      take_reply r.reply page type_error r.cancelled (ltb page.give_up_ms (r.now - start)) s

  -- How the polling ends: the last state, and the number of requests. When the page is left while
  -- the timer waits, the timer is cleared.
  abbrev pub go_on :
      Bool → ℕ → Next A → (PollState A → Option (PollState A × ℕ)) → Option (PollState A × ℕ)
  go_on cleared n (over s) rest = some (s, suc n)
  go_on true n (again s) rest = some (s, suc n)
  go_on false n (again s) rest = rest s

  -- The rounds from the nth on, with fuel for so many of them; `none`: the fuel ran out.
  unfoldable pub poll :
      Page → String → ℕ → (ℕ → Round A) → (fuel n : ℕ) → PollState A → Option (PollState A × ℕ)
  poll page type_error start rounds zero n s = none
  poll page type_error start rounds (suc fuel) n s =
      go_on (rounds n).cleared n (poll_once page type_error start (rounds n) s)
        (poll page type_error start rounds fuel (suc n))

-- What the page shows.
pub data View (A : Type 0) : Type 0 where
  alert : String → View A
  loading : View A
  succeeded : Option A → View A
  stopped : String → View A
  progress : JobRecord A → (gave_up : Bool) → View A

module _ {A : Type 0} where
  abbrev pub view_job : JobStatus → JobRecord A → Bool → View A
  view_job completed j gave_up = succeeded j.result
  view_job failed j gave_up = stopped (else_text (or_text j.error none) "(no detail)")
  view_job _ j gave_up = progress j gave_up

  abbrev pub view_of : Option String → Option (JobRecord A) → Bool → View A
  view_of (some text) job gave_up = alert text
  view_of none none gave_up = loading
  view_of none (some j) gave_up = view_job j.status j gave_up

  -- What `BacktestResult` shows; `if (error)` is false of an empty text.
  unfoldable pub backtest_view : PollState A → View A
  backtest_view s = view_of (or_text s.error none) s.job s.gave_up

  abbrev pub sweep_completed : Option A → JobRecord A → Bool → View A
  sweep_completed none j gave_up = progress j gave_up
  sweep_completed (some a) j gave_up = succeeded (some a)

  abbrev pub sweep_job : JobStatus → JobRecord A → Bool → View A
  sweep_job failed j gave_up = stopped (else_text (or_text j.error none) "(no detail)")
  sweep_job completed j gave_up = sweep_completed j.result j gave_up
  sweep_job _ j gave_up = progress j gave_up

  abbrev pub sweep_view_of : Option String → Option (JobRecord A) → Bool → View A
  sweep_view_of (some text) job gave_up = alert text
  sweep_view_of none none gave_up = loading
  sweep_view_of none (some j) gave_up = sweep_job j.status j gave_up

  -- What `SweepResult` shows.
  unfoldable pub sweep_view : PollState A → View A
  sweep_view s = sweep_view_of (or_text s.error none) s.job s.gave_up
