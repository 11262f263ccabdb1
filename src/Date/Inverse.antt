-- ===== src/Date/Inverse.antt =====
-- netlib/base/Date.cc: `getYearMonthDay` undoes `getJulianDayNumber`.
use netlib.Base.{
  ℕ, ◌+◌, ◌-◌, ◌*◌, ◌/◌, ◌%◌, ◌≤◌, ◌<◌, ◌≡◌, ◌≢◌, inl, inr, same_or_not, refl, sym, ◌∙◌, subst,
  arith,
}
use netlib.Date.{YearMonthDay, get_julian_day_number, year_month_day_of}
use netlib.Date.Calendar.{is_leap, days_in_month, IsValid, julian_day}

-- The date as the formulas have it: the year begins in March, and January and February are the
-- months 10 and 11 of the year before.
abbrev pub shift : ℕ → ℕ
shift month = (14 - month) / 12

abbrev pub march_year : YearMonthDay → ℕ
march_year t = t.year + 4800 - shift t.month

abbrev pub march_month : YearMonthDay → ℕ
march_month t = t.month + 12 * shift t.month - 3

abbrev pub days_before : ℕ → ℕ
days_before m = (153 * m + 2) / 5

-- The day of that year, from 0.
abbrev pub march_day : YearMonthDay → ℕ
march_day t = t.day - 1 + days_before (march_month t)

-- A March year of 366 days ends with a leap day.
pub record InYear (y m d : ℕ) : Type 0 where
  pub month : m ≤ 11
  pub after : days_before m ≤ d
  pub before : d < days_before (m + 1)
  pub within : d ≤ 365
  pub leap_four : d ≡ 365 → y % 4 ≡ 3
  pub leap_century : d ≡ 365 → y % 100 ≡ 99 → y % 400 ≡ 399

abbrev MarchInYear : ℕ → ℕ → ℕ → Type 0
MarchInYear y d m =
    1 ≤ d
    → d ≤ days_in_month y m
    → InYear (y + 4800 - shift m) (m + 12 * shift m - 3)
        (d - 1 + days_before (m + 12 * shift m - 3))

march_february : (y d : ℕ) → MarchInYear y d 2
unfolding days_in_month is_leap
march_february y d l u = record {
  month = omega arith;
  after = omega arith;
  before = ground arith;
  within = ground arith;
  leap_four = λ h. ground arith;
  leap_century = λ h k. ground arith;
}

march_other : (y d m : ℕ) → 1 ≤ m → m ≤ 12 → m ≢ 2 → MarchInYear y d m
unfolding days_in_month
march_other y d m a b n l u = ground arith

pub march-InYear :
    (t : YearMonthDay) → IsValid t → InYear (march_year t) (march_month t) (march_day t)
march-InYear t v = elim (same_or_not t.month 2) [
  | inl february ↦
      subst (MarchInYear t.year t.day) (sym february) (march_february t.year t.day) v.from_first
        v.to_last
  | inr other ↦
      march_other t.year t.day t.month v.from_january v.to_december other v.from_first v.to_last
]

-- Days before March year `y`, counted from the start of March year 0.
abbrev pub days_before_year : ℕ → ℕ
days_before_year y = 365 * y + y / 4 - y / 100 + y / 400

module _ (y m d : ℕ) (v : InYear y m d) where
  -- The day of the century.
  century_day : ℕ
  century_day = 365 * (y % 100) + y % 100 / 4 + d

  in_centuries : days_before_year y + d ≡ 36524 * (y / 100) + y / 100 / 4 + century_day
  unfolding century_day
  in_centuries = omega arith

  century_fits : 4 * century_day + 3 < 146097 + y / 100 % 4
  unfolding century_day
  century_fits = elim (same_or_not d 365) [
    | inl leap_day ↦ elim (same_or_not (y % 100) 99) [
      | inl last ↦ omega (arith, v.leap_century leap_day last)
      | inr early ↦ omega (arith, v.leap_four leap_day)
    ]
    | inr other ↦ omega (arith, v.within)
  ]

  -- The four steps of `getYearMonthDay`, from the day number to the month.
  century : (4 * (days_before_year y + d) + 3) / 146097 ≡ y / 100
  century = omega (arith, in_centuries, century_fits)

  day_of_century : days_before_year y + d - y / 100 * 146097 / 4 ≡ century_day
  day_of_century = omega (arith, in_centuries)

  year_of_century : (4 * century_day + 3) / 1461 ≡ y % 100
  unfolding century_day
  year_of_century = elim (same_or_not d 365) [
    | inl leap_day ↦ omega (arith, v.leap_four leap_day)
    | inr other ↦ omega (arith, v.within)
  ]

  day_of_year : century_day - y % 100 * 1461 / 4 ≡ d
  unfolding century_day
  day_of_year = omega arith

  month_of_year : (5 * d + 2) / 153 ≡ m
  month_of_year = omega (arith, v.after, v.before, v.within, v.month)

-- The date of a day of a March year.
abbrev of_march : ℕ → ℕ → ℕ → YearMonthDay
of_march y m d = record {
  year = y / 100 * 100 + y % 100 + m / 10 - 4800;
  month = m + 3 - 12 * (m / 10);
  day = d - (153 * m + 2) / 5 + 1;
}

year_month_day_of_lem :
    (y m d j : ℕ)
    → InYear y m d
    → j + 32044 ≡ days_before_year y + d
    → year_month_day_of j ≡ of_march y m d
unfolding year_month_day_of
year_month_day_of_lem y m d j v e =
    rw
      (
        e,
        century y m d v,
        day_of_century y m d v,
        year_of_century y m d v,
        day_of_year y m d v,
        month_of_year y m d v,
      )
      refl

same_date : (s t : YearMonthDay) → s.year ≡ t.year → s.month ≡ t.month → s.day ≡ t.day → s ≡ t
same_date s t y m d = rw (y, m, d) refl

pub julian_day_lem :
    (t : YearMonthDay)
    → IsValid t
    → julian_day t + 32044 ≡ days_before_year (march_year t) + march_day t
unfolding get_julian_day_number
julian_day_lem t v = omega (arith, v.from_january, v.to_december, v.from_first)

-- Every valid date comes back from its Julian day number.
pub year_month_day_of-julian_day :
    (t : YearMonthDay) → IsValid t → year_month_day_of (julian_day t) ≡ t
year_month_day_of-julian_day t v =
    year_month_day_of_lem _ _ _ _ (march-InYear t v) (julian_day_lem t v)
    ∙ same_date _ t (omega (arith, v.from_january, v.to_december))
        (omega (arith, v.from_january, v.to_december)) (omega (arith, v.from_first))
