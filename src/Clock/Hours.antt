-- ===== src/Clock/Hours.antt =====
-- The hours of the 12-hour clock.
use polyquantlab.Common.{
  ℕ, ◌+◌, ◌%◌, ◌≤◌, ◌<◌, leb, ◌==◌, ◌≡◌, refl, arith, String, str_eq, Bool, true, false,
  if◌then◌else◌,
}
use polyquantlab.Clock.{hour12, ampm}

-- The hour of the day that a clock with AM and PM shows.
abbrev pub hour24 : ℕ → String → ℕ
hour24 h half = h % 12 + (if str_eq half "PM" then 12 else 0)

pub record IsHour (hours : ℕ) : Type 0 where
  pub from : 1 ≤ hour12 hours
  pub to : hour12 hours ≤ 12
  pub back : hour24 (hour12 hours) (ampm hours) ≡ hours

hour12-from : (b : Bool) (n : ℕ) → (n == 0) ≡ b → 1 ≤ (if b then 12 else n)
hour12-from true n e = omega arith
hour12-from false n e = ground arith

hour12-to : (b : Bool) (n : ℕ) → n < 12 → (if b then 12 else n) ≤ 12
hour12-to true n h = omega arith
hour12-to false n h = omega arith

hour12-mod : (b : Bool) (n : ℕ) → (n == 0) ≡ b → n < 12 → (if b then 12 else n) % 12 ≡ n
hour12-mod true n e h = ground arith
hour12-mod false n e h = omega arith

hour24-ampm :
    (b : Bool) (n hours : ℕ)
    → leb 12 hours ≡ b
    → hours < 24
    → n ≡ hours % 12
    → n + (if str_eq (if b then "PM" else "AM") "PM" then 12 else 0) ≡ hours
hour24-ampm true n hours e h k = let l : 12 ≤ hours = ground arith in omega arith
hour24-ampm false n hours e h k = let l : hours < 12 = ground arith in omega arith

-- The hour that is printed is one of a clock, from 1 to 12, and with AM or PM it gives back the hour
-- of the day, for every hour below 24: midnight is 12 AM and noon is 12 PM.
pub hour24-hour12 : (hours : ℕ) → hours < 24 → IsHour hours
hour24-hour12 hours h =
    let m : hours % 12 < 12 = omega arith in
    record {
      from = hour12-from _ (hours % 12) refl;
      to = hour12-to (hours % 12 == 0) (hours % 12) m;
      back =
          hour24-ampm (leb 12 hours) (hour12 hours % 12) hours refl h
            (hour12-mod (hours % 12 == 0) (hours % 12) refl m);
    }
