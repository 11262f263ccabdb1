-- ===== src/Date.antt =====
-- netlib/base/Date.cc and Date.h: dates as Julian day numbers. Years, months and days are natural
-- numbers, and so are the intermediate values for the years from 0 on; the subtraction of 4800
-- comes last here. `getYearMonthDay` is `none` where a product overflows an int.
pub mod Calendar
pub mod Inverse
pub mod Days
mod Examples
use netlib.Base.{ℕ, ◌+◌, ◌-◌, ◌*◌, ◌/◌, ◌%◌, Bool, ltb, leb, Option, some, ◌>>◌, assert}

pub record YearMonthDay : Type 0 where
  pub year : ℕ
  pub month : ℕ
  pub day : ℕ

unfoldable pub get_julian_day_number : ℕ → ℕ → ℕ → ℕ
get_julian_day_number year month day =
    let a = (14 - month) / 12 in
    let y = year + 4800 - a in
    let m = month + 12 * a - 3 in
    day + (153 * m + 2) / 5 + y * 365 + y / 4 - y / 100 + y / 400 - 32045

-- The steps of `getYearMonthDay`.
unfoldable pub year_month_day_of : ℕ → YearMonthDay
year_month_day_of julian_number =
    let a = julian_number + 32044 in
    let b = (4 * a + 3) / 146097 in
    let c = a - b * 146097 / 4 in
    let d = (4 * c + 3) / 1461 in
    let e = c - d * 1461 / 4 in
    let m = (5 * e + 2) / 153 in
    record {
      year = b * 100 + d + m / 10 - 4800;
      month = m + 3 - 12 * (m / 10);
      day = e - (153 * m + 2) / 5 + 1;
    }

-- The greatest `int`.
abbrev pub int_max : ℕ
int_max = 2147483647

-- `4 * a + 3` is the greatest of the products; where it is no `int` the result is undefined: `none`.
unfoldable pub get_year_month_day : ℕ → Option YearMonthDay
get_year_month_day julian_number =
    assert (leb (4 * (julian_number + 32044) + 3) int_max) >> some (year_month_day_of julian_number)

-- `cJulianDayOf1970_01_01`
unfoldable pub julian_day_of_1970_01_01 : ℕ
unfolding get_julian_day_number
julian_day_of_1970_01_01 = get_julian_day_number 1970 1 1

-- The class, which holds one number.
pub record Date : Type 0 where
  pub julian_day_number : ℕ

unfoldable pub construct : ℕ → ℕ → ℕ → Date
unfolding get_julian_day_number
construct y m d = record { julian_day_number = get_julian_day_number y m d }

unfoldable pub valid : Date → Bool
valid t = ltb 0 t.julian_day_number

unfoldable pub year_month_day : Date → Option YearMonthDay
year_month_day t = get_year_month_day t.julian_day_number

unfoldable pub week_day : Date → ℕ
week_day t = (t.julian_day_number + 1) % 7
