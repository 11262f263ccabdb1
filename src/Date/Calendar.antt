-- ===== src/Date/Calendar.antt =====
-- netlib/base/Date.cc: the Gregorian calendar by its rules, to which the formulas are compared.
use netlib.Base.{ℕ, ◌+◌, ◌/◌, ◌%◌, ◌≤◌, Bool, ◌==◌, ltb, if◌then◌else◌}
use netlib.Date.{YearMonthDay, get_julian_day_number}

unfoldable pub is_leap : ℕ → Bool
is_leap y = if y % 100 == 0 then y % 400 == 0 else y % 4 == 0

-- February apart, long and short months alternate, and begin again with August.
unfoldable pub days_in_month : ℕ → ℕ → ℕ
unfolding is_leap
days_in_month y m = if m == 2 then (if is_leap y then 29 else 28) else 30 + (m + m / 8) % 2

pub record IsValid (t : YearMonthDay) : Type 0 where
  pub from_january : 1 ≤ t.month
  pub to_december : t.month ≤ 12
  pub from_first : 1 ≤ t.day
  pub to_last : t.day ≤ days_in_month t.year t.month

unfoldable pub next_day : YearMonthDay → YearMonthDay
unfolding days_in_month
next_day t =
    if ltb t.day (days_in_month t.year t.month)
    then record t { day = t.day + 1 }
    else if t.month == 12
    then record { year = t.year + 1; month = 1; day = 1 }
    else record t { month = t.month + 1; day = 1 }

abbrev pub julian_day : YearMonthDay → ℕ
unfolding get_julian_day_number
julian_day t = get_julian_day_number t.year t.month t.day
