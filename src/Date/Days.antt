-- ===== src/Date/Days.antt =====
-- netlib/base/Date.cc: day numbers count days.
use netlib.Base.{
  ℕ, zero, suc, ◌+◌, ◌-◌, ◌*◌, ◌%◌, ◌≤◌, ◌<◌, ◌≡◌, ◌≢◌, inl, inr, same_or_not, Bool-cases,
  ltb_false→le, ==_ne, ==_iff, refl, sym, ap, ◌∙◌, true, ltb, ◌==◌, le→leb, some, arith,
}
use netlib.Date.{
  YearMonthDay, Date, get_julian_day_number, year_month_day_of, get_year_month_day, int_max,
  week_day,
}
use netlib.Date.Calendar.{is_leap, days_in_month, IsValid, next_day, julian_day}
use netlib.Date.Inverse.{
  march_year, march_day, shift, days_before, days_before_year, julian_day_lem,
  year_month_day_of-julian_day,
}

pub next_day-IsValid : (t : YearMonthDay) → IsValid t → IsValid (next_day t)
unfolding next_day days_in_month is_leap
next_day-IsValid t v = ground (arith, v.from_january, v.to_december, v.from_first, v.to_last)

abbrev pub date_of : YearMonthDay → Date
date_of t = record { julian_day_number = julian_day t }

abbrev day_number : YearMonthDay → ℕ
day_number t = days_before_year (march_year t) + march_day t

abbrev date : ℕ → ℕ → ℕ → YearMonthDay
date y m d = record { year = y; month = m; day = d }

february_ends : (y : ℕ) → day_number (date y 3 1) ≡ day_number (date y 2 (days_in_month y 2)) + 1
unfolding days_in_month is_leap
february_ends y = ground arith

days_in_month_pos : (y m : ℕ) → 1 ≤ days_in_month y m
unfolding days_in_month
days_in_month_pos y m = ground arith

other_ends_lem :
    (y m : ℕ)
    → 1 ≤ m
    → m < 12
    → m ≢ 2
    → days_before (m + 1 + 12 * shift (m + 1) - 3)
      ≡ days_in_month y m + days_before (m + 12 * shift m - 3)
unfolding days_in_month
other_ends_lem y m a b n = ground arith

other_ends :
    (y m : ℕ)
    → 1 ≤ m
    → m < 12
    → m ≢ 2
    → day_number (date y (m + 1) 1) ≡ day_number (date y m (days_in_month y m)) + 1
other_ends y m a b n =
    let same : y + 4800 - shift (m + 1) ≡ y + 4800 - shift m = omega arith in
    let some_days : 1 ≤ days_in_month y m = days_in_month_pos y m in
    rw same (omega (arith, other_ends_lem y m a b n))

year_ends : (y : ℕ) → day_number (date (y + 1) 1 1) ≡ day_number (date y 12 31) + 1
year_ends y = omega arith

december : (y : ℕ) → days_in_month y 12 ≡ 31
unfolding days_in_month
december y = refl

month_ends :
    (y m : ℕ)
    → 1 ≤ m
    → m < 12
    → day_number (date y (m + 1) 1) ≡ day_number (date y m (days_in_month y m)) + 1
month_ends y m a b = elim (same_or_not m 2) [
  | inl february ↦ rw february (february_ends y)
  | inr other ↦ other_ends y m a b other
]

next_day-day_number : (t : YearMonthDay) → IsValid t → day_number (next_day t) ≡ day_number t + 1
unfolding next_day
next_day-day_number t v = elim (Bool-cases (ltb t.day (days_in_month t.year t.month))) [
  | inl within ↦ rw within (omega (arith, v.from_first))
  | inr last ↦
      let is_last : t.day ≡ days_in_month t.year t.month =
        omega (arith, ltb_false→le _ _ last, v.to_last) in
      elim (same_or_not t.month 12) [
        | inl end ↦
            let is_12 : (t.month == 12) ≡ true = (==_iff t.month 12).1 end in
            let is_31 : t.day ≡ 31 = is_last ∙ ap (days_in_month t.year) end ∙ december t.year in
            rw (last, is_12)
              (year_ends t.year
                ∙ ap (λ m. day_number (date t.year m 31) + 1) (sym end)
                ∙ ap (λ d. day_number (date t.year t.month d) + 1) (sym is_31))
        | inr other ↦
            rw (last, ==_ne t.month 12 other)
              (month_ends t.year t.month v.from_january (omega (arith, v.to_december))
                ∙ ap (λ d. day_number (date t.year t.month d) + 1) (sym is_last))
      ]
]

counted : (t : YearMonthDay) → IsValid t → julian_day (next_day t) ≡ julian_day t + 1
counted t v = omega (
  arith,
  julian_day_lem t v,
  julian_day_lem (next_day t) (next_day-IsValid t v),
  next_day-day_number t v,
)

-- The Julian day number counts the days of the Gregorian calendar: the next day, by the lengths of
-- the months and the leap years, is a valid date, has the next number, and falls on the next
-- day of the week, Sunday after Saturday.
pub julian_day-next_day :
    (t : YearMonthDay)
    → IsValid t
    → IsValid (next_day t)
      × (julian_day (next_day t) ≡ julian_day t + 1)
      × (week_day (date_of (next_day t)) ≡ (week_day (date_of t) + 1) % 7)
unfolding week_day
julian_day-next_day t v = let e = counted t v in (next_day-IsValid t v, e, omega (arith, e))

-- From a valid date on, every day number is that of a valid date.
reach :
    (n : ℕ) (t : YearMonthDay)
    → IsValid t
    → (s : YearMonthDay) × IsValid s × (julian_day s ≡ julian_day t + n)
reach zero t v = (t, v, omega arith)
reach (suc n) t v =
    let e = counted t v in
    let (s, u, f) = reach n (next_day t) (next_day-IsValid t v) in (s, u, omega (arith, e, f))

first_day : YearMonthDay
first_day = date 0 1 1

first_day-IsValid : IsValid first_day
unfolding first_day days_in_month
first_day-IsValid = record {
  from_january = omega arith;
  to_december = omega arith;
  from_first = omega arith;
  to_last = omega arith;
}

first_day_number : julian_day first_day ≡ 1721060
unfolding first_day get_julian_day_number
first_day_number = refl

-- Without regard to the range of an int.
pub julian_day-year_month_day_of :
    (j : ℕ) → 1721060 ≤ j → IsValid (year_month_day_of j) × (julian_day (year_month_day_of j) ≡ j)
julian_day-year_month_day_of j h =
    let (s, v, e) = reach (j - 1721060) first_day first_day-IsValid in
    let n : julian_day s ≡ j = omega (arith, e, first_day_number) in
    let same : year_month_day_of j ≡ s =
      ap year_month_day_of (sym n) ∙ year_month_day_of-julian_day s v in
    rw same (v, n)

-- A day number below 2^29 - 32044, so that no product overflows an int.
abbrev pub Fits : ℕ → Type 0
Fits j = j < 536838868

pub get_year_month_day_lem : (j : ℕ) → Fits j → get_year_month_day j ≡ some (year_month_day_of j)
unfolding get_year_month_day
get_year_month_day_lem j h = rw (le→leb (4 * (j + 32044) + 3) int_max (omega arith)) refl

-- From the first day of the year 0 up to the day number 2^29 - 32045, the last for which no product
-- overflows an int, every number is that of the date it is turned into, and that date is valid.
pub julian_day-get_year_month_day :
    (j : ℕ)
    → 1721060 ≤ j
    → j < 536838868
    → (t : YearMonthDay) × (get_year_month_day j ≡ some t) × IsValid t × (julian_day t ≡ j)
julian_day-get_year_month_day j h k =
    let (valid, number) = julian_day-year_month_day_of j h in
    (year_month_day_of j, get_year_month_day_lem j k, valid, number)
