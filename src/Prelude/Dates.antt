-- ===== src/Prelude/Dates.antt =====
-- Dates of the Gregorian calendar, as the `datetime` module counts them.
use sfa_routing.Prelude.{
  ℕ, zero, suc, ◌+◌, ◌-◌, ◌*◌, ◌/◌, ◌%◌, Bool, not, ◌&&◌, ◌||◌, ltb, ◌==◌, if◌then◌else◌, ◌≡◌, refl,
}

pub record Date : Type 0 where
  pub year : ℕ
  pub month : ℕ
  pub day : ℕ

abbrev pub is_leap : ℕ → Bool
is_leap y = y % 4 == 0 && (not (y % 100 == 0) || y % 400 == 0)

abbrev pub days_in_month : ℕ → ℕ → ℕ
days_in_month y m =
    if m == 2
    then if is_leap y then 29 else 28
    else if m == 4 || m == 6 || m == 9 || m == 11
    then 30
    else 31

-- `date + timedelta(days=1)`
abbrev pub next_day : Date → Date
next_day d =
    if ltb d.day (days_in_month d.year d.month)
    then record d { day = d.day + 1 }
    else if ltb d.month 12
    then record d { month = d.month + 1; day = 1 }
    else record { year = d.year + 1; month = 1; day = 1 }

-- `date + timedelta(days=n)`
abbrev pub add_days : Date → ℕ → Date
add_days d zero = d
add_days d (suc n) = next_day (add_days d n)

abbrev days_before : ℕ → ℕ → ℕ
days_before y zero = 0
days_before y (suc m) = days_before y m + (if m == 0 then 0 else days_in_month y m)

-- `date.toordinal()`: the first of January of the year 1 is day 1.
abbrev pub ordinal : Date → ℕ
ordinal d =
    let y = d.year - 1 in y * 365 + y / 4 - y / 100 + y / 400 + days_before d.year d.month + d.day

-- `date.weekday()`: Monday is 0.
abbrev pub weekday : Date → ℕ
weekday d = (ordinal d + 6) % 7

abbrev leap_day : Date
leap_day = record { year = 2024; month = 2; day = 29 }

leap_day-weekday : weekday leap_day ≡ 3
leap_day-weekday = refl

new_year :
    add_days (record { year = 2023; month = 12; day = 30 }) 2
    ≡ record { year = 2024; month = 1; day = 1 }
new_year = refl
