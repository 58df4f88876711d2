-- ===== src/Forms.antt =====
-- The three forms that start a job on one of the built-in strategies: web/components/SweepForm.tsx,
-- web/components/BacktestForm.tsx and web/components/NewPaperStrategyForm.tsx. Here: the strategies,
-- what a reply becomes, and the machine that the forms share.
pub mod Inputs
pub mod Sending
pub mod Sweep
pub mod Single
pub mod Paper
pub mod Replies
mod Tests
use polyquantlab.Common.{
  ℕ, ◌==◌, ◌||◌, ◌&&◌, String, Bool, true, false, List, [], ◌∷◌, ◌++◌, Option, none, some, concat,
}
use polyquantlab.Strategy.Params.{Number}
use polyquantlab.Strategy.Submit.{Fields, or_text, else_text, is_ok, failure_text}

pub data StrategyType : Type 0 where
  threshold_entry mean_reversion time_before_resolution : StrategyType

pub data Direction : Type 0 where
  below above : Direction

pub data Side : Type 0 where
  buy_yes buy_no : Side

-- The object that `buildSpec` gives.
pub data Spec : Type 0 where
  threshold_spec : (threshold : Number) → Direction → Side → (size_usd : Number) → Spec
  reversion_spec : (lookback z_threshold size_usd : Number) → Spec
  time_spec : (minutes_before minutes_window : Number) → Side → (size_usd : Number) → Spec

-- The values of the fields of a strategy. Each form keeps all of them, whichever strategy is chosen.
pub record Pins : Type 0 where
  pub direction : Direction
  pub side : Side
  pub size_usd : Number
  pub threshold : Number
  pub lookback : Number
  pub z_threshold : Number
  pub minutes_before : Number
  pub minutes_window : Number

-- `buildSpec`, `buildStrategySpec` and `buildBaseSpec`, which are the same in the three forms.
abbrev pub spec_of : StrategyType → Pins → Spec
spec_of threshold_entry p = threshold_spec p.threshold p.direction p.side p.size_usd
spec_of mean_reversion p = reversion_spec p.lookback p.z_threshold p.size_usd
spec_of time_before_resolution p = time_spec p.minutes_before p.minutes_window p.side p.size_usd

-- What a request comes to: an exception of `fetch`, or a status with what reading the JSON gives.
pub data Json : Type 0 where
  unreadable : (message : Option String) → Json
  null_json : Json
  object : Fields → Json

pub data Sent : Type 0 where
  crashed : (message : Option String) → Sent
  replied : (status : ℕ) → Json → Sent

-- What the user sees when a request is settled: an error, or toasts of success and the page that is
-- opened, or a success that an error follows.
pub data Shown : Type 0 where
  error_toast : String → Shown
  opened : (toasts : List String) → (page : String) → Shown
  two_toasts : (success error : String) → Shown

-- `body?.detail || body?.error || …`, where JSON that cannot be read is `{}`.
abbrev pub refused : Json → String → ℕ → Shown
refused (unreadable m) what status = error_toast (failure_text what status)
refused null_json what status = error_toast (failure_text what status)
refused (object f) what status =
    error_toast (else_text (or_text f.detail (or_text f.error none)) (failure_text what status))

abbrev pub thrown : Option String → String → Shown
thrown m what = error_toast (else_text (or_text m none) what)

module _ (encode : String → String) (folder : String) where
  abbrev pub job_page : Option String → Shown
  job_page none = error_toast "Server didn't return a job_id"
  job_page (some id) = opened [] (concat (folder ∷ encode id ∷ []))

  abbrev pub job_body : Json → Shown
  job_body (unreadable m) = thrown m "Submit failed"
  job_body null_json = job_page none
  job_body (object f) = job_page (or_text f.job_id none)

  abbrev pub job_reply : Bool → ℕ → Json → Shown
  job_reply true status b = job_body b
  job_reply false status b = refused b "Submit failed" status

  -- The end of `submit` in `SweepForm` and `BacktestForm`.
  unfoldable pub job_shown : Sent → Shown
  job_shown (crashed m) = thrown m "Submit failed"
  job_shown (replied status b) = job_reply (is_ok status || status == 202) status b
