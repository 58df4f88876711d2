-- ===== src/Clock/Tests.antt =====
-- Dates in words.
use polyquantlab.Common.{◌≡◌, refl, some, none, arith}
use polyquantlab.Clock.{Date, format_date_time, format_date_short, format_time_only}
use polyquantlab.Clock.Hours.{IsHour, hour24-hour12}

abbrev a_date : Date
a_date = record { year = 2026; month = 4; day = 23; hours = 16; minutes = 41; seconds = 5 }

printed :
    (format_date_time (some a_date) ≡ "May 23, 2026, 04:41 PM")
    × (format_date_short (some a_date) ≡ "May 23, 2026")
    × (format_time_only (some a_date) ≡ "04:41:05 PM")
    × (format_date_time none ≡ "—")
unfolding format_date_time format_date_short format_time_only
printed = (refl, refl, refl, refl)

noon : IsHour 12
noon = hour24-hour12 12 (omega arith)
