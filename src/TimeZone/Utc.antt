-- ===== src/TimeZone/Utc.antt =====
-- netlib/base/TimeZone.cc: `toUtcTime` and `fromUtcTime`.
use netlib.Base.{
  ℕ, suc, ◌+◌, ◌-◌, ◌*◌, ◌/◌, ◌%◌, ◌≤◌, ◌≡◌, ◌≢◌, refl, sym, ap, ◌∙◌, inl, inr, same_or_not, ℤ, pos,
  negsuc, pos_part, sub_ℕ, ◌+ℤ◌, ◌-ℤ◌, ltb_ℤ, div_ℤ, mod_ℤ, Bool, true, false, if◌then◌else◌, ◌<◌,
  Option, some, arith,
}
use netlib.Date.{YearMonthDay, get_julian_day_number, year_month_day_of, julian_day_of_1970_01_01}
use netlib.Date.Days.{Fits, get_year_month_day_lem, julian_day-year_month_day_of}
use netlib.TimeZone.{
  Tm, fill_date, fill_yday, utc_of, seconds_per_day, cast_int, to_utc_time, times_day,
  from_date_time, from_utc_time,
}

epoch_day : julian_day_of_1970_01_01 ≡ 2440588
unfolding julian_day_of_1970_01_01 get_julian_day_number
epoch_day = refl

+ℤ-sub_ℕ : (n e : ℕ) → pos_part (sub_ℕ n e +ℤ pos e) ≡ n
unfolding ◌+ℤ◌
+ℤ-sub_ℕ n e = ground arith

-- What `from_date_time` makes of the fields of the day `n`, at second `k`.
from_date_time_lem :
    (n k month : ℕ)
    → 1721060 ≤ n
    → month ≡ (year_month_day_of n).month
    → from_date_time
        (year_month_day_of n).year
        month
        (year_month_day_of n).day
        (k / 60 / 60)
        (k / 60 % 60)
        (k % 60)
      ≡ times_day (sub_ℕ n 2440588) +ℤ pos k
unfolding from_date_time
from_date_time_lem n k month h m =
    let (valid, number) = julian_day-year_month_day_of n h in
    let seconds : k / 60 / 60 * 3600 + k / 60 % 60 * 60 + k % 60 ≡ k = omega arith in
    rw (m, number, epoch_day, seconds) refl

from_utc_time-fill_yday :
    (yday : Bool) (n : ℕ) (date : YearMonthDay) (t : Tm)
    → from_utc_time (fill_yday yday n date t) ≡ from_utc_time t
unfolding from_utc_time fill_yday
from_utc_time-fill_yday true n date t = refl
from_utc_time-fill_yday false n date t = refl

from_utc_time-fill_date :
    (n k : ℕ)
    → 1721060 ≤ n
    → from_utc_time (fill_date n (year_month_day_of n) k) ≡ times_day (sub_ℕ n 2440588) +ℤ pos k
unfolding from_utc_time fill_date
from_utc_time-fill_date n k h =
    let month : (year_month_day_of n).month - 1 + 1 ≡ (year_month_day_of n).month =
      omega (arith, (julian_day-year_month_day_of n h).0.from_january) in
    ap
      (λ y.
        from_date_time y ((year_month_day_of n).month - 1 + 1) (year_month_day_of n).day
          (k / 60 / 60) (k / 60 % 60) (k % 60))
      (+ℤ-sub_ℕ (year_month_day_of n).year 1900)
    ∙ from_date_time_lem n k ((year_month_day_of n).month - 1 + 1) h month

-- A UTC time that stands for `s`.
abbrev Stands : ℤ → Option Tm → Type 0
Stands s o = (t : Tm) × (o ≡ some t) × (from_utc_time t ≡ s)

utc_of-Stands :
    (days : ℤ) (n k : ℕ) (yday : Bool)
    → 1721060 ≤ n
    → Fits n
    → days ≡ sub_ℕ n 2440588
    → Stands (times_day days +ℤ pos k) (utc_of days k yday)
unfolding utc_of
utc_of-Stands days n k yday h fits e =
    let number : pos_part (days +ℤ pos julian_day_of_1970_01_01) ≡ n =
      rw (epoch_day, e) (+ℤ-sub_ℕ n 2440588) in
    let date = year_month_day_of n in
    (
      fill_yday yday n date (fill_date n date k),
      rw (number, get_year_month_day_lem n fits) refl,
      from_utc_time-fill_yday yday n date (fill_date n date k)
          ∙ from_utc_time-fill_date n k h
          ∙ ap (λ d. times_day d +ℤ pos k) (sym e),
    )

-- From the first second of the year 0 on, up to the last day whose number fits.
abbrev pub InYears : ℤ → Type 0
InYears (pos n) = n < 534398280 * 86400
InYears (negsuc n) = suc n ≤ 719528 * 86400

-- `toUtcTime` without its casts.
abbrev plain_utc : ℤ → Bool → Option Tm
plain_utc s yday =
    if ltb_ℤ (mod_ℤ s seconds_per_day) (pos 0)
    then utc_of (div_ℤ s seconds_per_day -ℤ pos 1)
        (pos_part (mod_ℤ s seconds_per_day +ℤ pos seconds_per_day)) yday
    else utc_of (div_ℤ s seconds_per_day) (pos_part (mod_ℤ s seconds_per_day)) yday

cast_int-sub_ℕ : (a b : ℕ) → a < 2147483648 → b < 2147483648 → cast_int (sub_ℕ a b) ≡ sub_ℕ a b
unfolding cast_int
cast_int-sub_ℕ a b h k = ground arith

cast_int-pos : (n : ℕ) → n < 2147483648 → cast_int (pos n) ≡ pos n
unfolding cast_int
cast_int-pos n h = ground arith

cast_days : (s : ℤ) → InYears s → cast_int (div_ℤ s seconds_per_day) ≡ div_ℤ s seconds_per_day
cast_days (pos n) h = cast_int-pos (n / 86400) (omega arith)
cast_days (negsuc n) h = cast_int-sub_ℕ 0 (suc n / 86400) (omega arith) (omega arith)

cast_seconds : (s : ℤ) → cast_int (mod_ℤ s seconds_per_day) ≡ mod_ℤ s seconds_per_day
cast_seconds (pos n) = cast_int-pos (n % 86400) (omega arith)
cast_seconds (negsuc n) = cast_int-sub_ℕ 0 (suc n % 86400) (omega arith) (omega arith)

to_utc_time-plain_utc : (s : ℤ) (yday : Bool) → InYears s → to_utc_time s yday ≡ plain_utc s yday
unfolding to_utc_time
to_utc_time-plain_utc s yday h = rw (cast_days s h, cast_seconds s) refl

record Split (s : ℤ) (yday : Bool) : Type 0 where
  days : ℤ
  number : ℕ
  seconds : ℕ
  fields : plain_utc s yday ≡ utc_of days seconds yday
  in_range : 1721060 ≤ number
  fits : Fits number
  day : days ≡ sub_ℕ number 2440588
  sum : times_day days +ℤ pos seconds ≡ s

plain_utc_lem :
    (s : ℤ) (yday b : Bool)
    → ltb_ℤ (mod_ℤ s seconds_per_day) (pos 0) ≡ b
    → plain_utc s yday ≡ (
        if b
        then utc_of
            (div_ℤ s seconds_per_day -ℤ pos 1)
            (pos_part (mod_ℤ s seconds_per_day +ℤ pos seconds_per_day))
            yday
        else utc_of (div_ℤ s seconds_per_day) (pos_part (mod_ℤ s seconds_per_day)) yday)
plain_utc_lem s yday b h =
    ap
      (λ (c : Bool).
        if c
        then utc_of (div_ℤ s seconds_per_day -ℤ pos 1)
            (pos_part (mod_ℤ s seconds_per_day +ℤ pos seconds_per_day)) yday
        else utc_of (div_ℤ s seconds_per_day) (pos_part (mod_ℤ s seconds_per_day)) yday)
      h

same_utc : (d e : ℤ) (k l : ℕ) (yday : Bool) → d ≡ e → k ≡ l → utc_of d k yday ≡ utc_of e l yday
same_utc d e k l yday p q = rw (p, q) refl

day_after : (n : ℕ) (yday : Bool) → n < 534398280 * 86400 → Split (pos n) yday
unfolding ◌+ℤ◌
day_after n yday h = record {
  days = pos (n / 86400);
  number = n / 86400 + 2440588;
  seconds = n % 86400;
  fields = plain_utc_lem (pos n) yday false (ground arith);
  in_range = omega arith;
  fits = omega arith;
  day = ground arith;
  sum = ground arith;
}

midnight_before :
    (n : ℕ) (yday : Bool) → suc n ≤ 719528 * 86400 → suc n % 86400 ≡ 0 → Split (negsuc n) yday
unfolding ◌+ℤ◌
midnight_before n yday h e = record {
  days = sub_ℕ 0 (suc n / 86400);
  number = 2440588 - suc n / 86400;
  seconds = 0;
  fields =
      plain_utc_lem (negsuc n) yday false (ground arith)
      ∙ same_utc _ _ _ 0 yday refl (ground arith);
  in_range = omega arith;
  fits = omega arith;
  day = ground arith;
  sum = ground arith;
}

day_before :
    (n : ℕ) (yday : Bool) → suc n ≤ 719528 * 86400 → suc n % 86400 ≢ 0 → Split (negsuc n) yday
unfolding ◌+ℤ◌ ◌-ℤ◌
day_before n yday h e = record {
  days = sub_ℕ 0 (suc n / 86400 + 1);
  number = 2440588 - (suc n / 86400 + 1);
  seconds = 86400 - suc n % 86400;
  fields =
      plain_utc_lem (negsuc n) yday true (ground arith)
      ∙ same_utc _ _ _ _ yday (ground arith) (ground arith);
  in_range = omega arith;
  fits = omega arith;
  day = ground arith;
  sum = ground arith;
}

split : (s : ℤ) (yday : Bool) → InYears s → Split s yday
split (pos n) yday h = day_after n yday h
split (negsuc n) yday h = elim (same_or_not (suc n % 86400) 0) [
  | inl midnight ↦ midnight_before n yday h midnight
  | inr other ↦ day_before n yday h other
]

-- Every time from the first second of the year 0 on, before 1970 too, up to the last day for which the
-- products of Date fit an int, has a UTC date and time of day, and comes back from them.
pub from_utc_time-to_utc_time :
    (s : ℤ) (yday : Bool)
    → InYears s
    → (t : Tm) × (to_utc_time s yday ≡ some t) × (from_utc_time t ≡ s)
from_utc_time-to_utc_time s yday h =
    let p = split s yday h in
    let (t, e, back) = utc_of-Stands p.days p.number p.seconds yday p.in_range p.fits p.day in
    (t, to_utc_time-plain_utc s yday h ∙ p.fields ∙ e, back ∙ p.sum)
