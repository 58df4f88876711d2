-- ===== src/Clock.antt =====
-- Dates in words: web/libs/formatDate.ts. The fields of a date, in the local time of the runtime, are
-- arguments; `none` is a date that is absent or cannot be read.
pub mod Hours
mod Tests
use polyquantlab.Common.{
  ℕ, zero, suc, ◌%◌, ltb, leb, ◌==◌, String, Bool, true, false, List, [], ◌∷◌, Option, none, some,
  concat, show_nat, get_elem?, if◌then◌else◌,
}

-- What the getters of `Date` give.
pub record Date : Type 0 where
  pub year : ℕ
  pub month : ℕ
  pub day : ℕ
  pub hours : ℕ
  pub minutes : ℕ
  pub seconds : ℕ

abbrev pub months_short : List String
months_short =
    "Jan" ∷ "Feb" ∷ "Mar" ∷ "Apr" ∷ "May" ∷ "Jun" ∷ "Jul" ∷ "Aug" ∷ "Sep" ∷ "Oct" ∷ "Nov" ∷ "Dec"
    ∷ []

-- `MONTHS_SHORT[i]`, in a template.
abbrev pub or_undefined : Option String → String
or_undefined none = "undefined"
or_undefined (some s) = s

abbrev pub month_text : ℕ → String
month_text i = or_undefined (get_elem? months_short i)

abbrev pub pad2 : ℕ → String
pad2 n = if ltb n 10 then concat ("0" ∷ show_nat n ∷ []) else show_nat n

-- The hour of the 12-hour clock, and its half of the day.
abbrev pub hour12 : ℕ → ℕ
hour12 hours = if hours % 12 == 0 then 12 else hours % 12

abbrev pub ampm : ℕ → String
ampm hours = if leb 12 hours then "PM" else "AM"

unfoldable pub format_date_time : Option Date → String
format_date_time none = "—"
format_date_time (some d) = concat (
    month_text d.month
    ∷ " "
    ∷ show_nat d.day
    ∷ ", "
    ∷ show_nat d.year
    ∷ ", "
    ∷ pad2 (hour12 d.hours)
    ∷ ":"
    ∷ pad2 d.minutes
    ∷ " "
    ∷ ampm d.hours
    ∷ [])

unfoldable pub format_date_short : Option Date → String
format_date_short none = "—"
format_date_short (some d) =
    concat (month_text d.month ∷ " " ∷ show_nat d.day ∷ ", " ∷ show_nat d.year ∷ [])

unfoldable pub format_time_only : Option Date → String
format_time_only none = "—"
format_time_only (some d) =
    concat (
      pad2 (hour12 d.hours) ∷ ":" ∷ pad2 d.minutes ∷ ":" ∷ pad2 d.seconds ∷ " " ∷ ampm d.hours ∷ [])
