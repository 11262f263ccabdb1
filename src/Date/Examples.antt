-- ===== src/Date/Examples.antt =====
-- netlib/base/Date.cc: 29 February 2000 and its neighbours.
use netlib.Base.{◌≡◌, ◌+◌, ◌%◌, refl, some, arith}
use netlib.Date.{
  YearMonthDay, get_julian_day_number, get_year_month_day, julian_day_of_1970_01_01, week_day,
  construct,
}
use netlib.Date.Calendar.{IsValid, days_in_month, is_leap, next_day, julian_day}
use netlib.Date.Days.{julian_day-next_day, julian_day-get_year_month_day, date_of}

abbrev leap_day : YearMonthDay
leap_day = record { year = 2000; month = 2; day = 29 }

leap_day-IsValid : IsValid leap_day
unfolding days_in_month is_leap
leap_day-IsValid = record {
  from_january = omega arith;
  to_december = omega arith;
  from_first = omega arith;
  to_last = omega arith;
}

epoch : julian_day_of_1970_01_01 ≡ 2440588
unfolding julian_day_of_1970_01_01 get_julian_day_number
epoch = refl

a_thursday : week_day (construct 1970 1 1) ≡ 4
unfolding week_day construct get_julian_day_number
a_thursday = refl

a_march_first : next_day leap_day ≡ record { year = 2000; month = 3; day = 1 }
unfolding next_day days_in_month is_leap
a_march_first = refl

julian_day-next_day_example :
    IsValid (next_day leap_day)
    × (julian_day (next_day leap_day) ≡ julian_day leap_day + 1)
    × (week_day (date_of (next_day leap_day)) ≡ (week_day (date_of leap_day) + 1) % 7)
julian_day-next_day_example = julian_day-next_day leap_day leap_day-IsValid

julian_day-get_year_month_day_example :
    (t : YearMonthDay) × (get_year_month_day 2451604 ≡ some t)
    × IsValid t
    × (julian_day t ≡ 2451604)
julian_day-get_year_month_day_example =
    julian_day-get_year_month_day 2451604 (omega arith) (omega arith)
