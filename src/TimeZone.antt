-- ===== src/TimeZone.antt =====
-- netlib/base/TimeZone.cc: calendar times in UTC and in zones with transitions. Times are integers,
-- negative before 1970. `std::lower_bound`, `gmtime_r` and `timegm` are arguments. An index out
-- of range is `none`; a null result of `findLocalTime` does not occur. The
-- zone file is read in File.
mod Utc
mod Transitions
mod Local
pub mod File
mod Examples
use netlib.Base.{
  ℕ, ◌+◌, ◌-◌, ◌*◌, ◌/◌, ◌%◌, ℤ, pos, negsuc, pos_part, sub_ℕ, ◌+ℤ◌, ◌-ℤ◌, ltb_ℤ, div_ℤ, mod_ℤ,
  Bool, true, false, not, ◌&&◌, ◌==◌, ltb, leb, if◌then◌else◌, Option, none, some, ◌>>=◌, List, [],
  ◌∷◌, length, get_elem?,
}
use netlib.Date.{
  YearMonthDay, Date, get_julian_day_number, get_year_month_day, julian_day_of_1970_01_01, week_day,
}

-- `struct tm`: the fields that the code reads or sets. `zone` is an index into the abbreviations.
pub record Tm : Type 0 where
  pub sec : ℕ
  pub min : ℕ
  pub hour : ℕ
  pub mday : ℕ
  pub mon : ℕ
  pub year : ℤ
  pub wday : ℕ
  pub yday : ℕ
  pub isdst : Bool
  pub gmtoff : ℤ
  pub zone : ℕ

-- `bzero`
abbrev pub zero_tm : Tm
zero_tm = record {
  sec = 0;
  min = 0;
  hour = 0;
  mday = 0;
  mon = 0;
  year = pos 0;
  wday = 0;
  yday = 0;
  isdst = false;
  gmtoff = pos 0;
  zone = 0;
}

abbrev pub seconds_per_day : ℕ
seconds_per_day = 86400

-- `fillHMS`
abbrev pub fill_hms : ℕ → Tm → Tm
fill_hms seconds t = record t {
  sec = seconds % 60;
  min = seconds / 60 % 60;
  hour = seconds / 60 / 60;
}

-- A date with its day number, and the seconds of the day.
unfoldable pub fill_date : ℕ → YearMonthDay → ℕ → Tm
fill_date number date seconds = record (fill_hms seconds zero_tm) {
  year = sub_ℕ date.year 1900;
  mon = date.month - 1;
  mday = date.day;
  wday = week_day (record { julian_day_number = number });
}

unfoldable pub fill_yday : Bool → ℕ → YearMonthDay → Tm → Tm
fill_yday true number date t = record t { yday = number - get_julian_day_number date.year 1 1 }
fill_yday false number date t = t

-- The day `days` after the epoch.
unfoldable pub utc_of : ℤ → ℕ → Bool → Option Tm
unfolding fill_date fill_yday julian_day_of_1970_01_01
utc_of days seconds yday =
    let number = pos_part (days +ℤ pos julian_day_of_1970_01_01) in
    get_year_month_day number
    >>= (λ date. some (fill_yday yday number date (fill_date number date seconds)))

-- `static_cast<int>`: the low 32 bits, of which the first is the sign.
abbrev pub wrapped : ℕ → ℤ
wrapped m = if ltb m 2147483648 then pos m else negsuc (4294967295 - m)

abbrev pub flipped : ℕ → ℤ
flipped m = if ltb m 2147483648 then negsuc m else pos (4294967295 - m)

unfoldable pub cast_int : ℤ → ℤ
cast_int (pos n) = wrapped (n % 4294967296)
cast_int (negsuc n) = flipped (n % 4294967296)

unfoldable pub to_utc_time : ℤ → Bool → Option Tm
unfolding utc_of
to_utc_time seconds_since_epoch yday =
    let seconds = cast_int (mod_ℤ seconds_since_epoch seconds_per_day) in
    let days = cast_int (div_ℤ seconds_since_epoch seconds_per_day) in
    if ltb_ℤ seconds (pos 0)
    then utc_of (days -ℤ pos 1) (pos_part (seconds +ℤ pos seconds_per_day)) yday
    else utc_of days (pos_part seconds) yday

-- `day * cSecondsPerDay + secondsInDay`
abbrev pub times_day : ℤ → ℤ
times_day (pos n) = pos (n * seconds_per_day)
times_day (negsuc n) = negsuc (n * seconds_per_day + (seconds_per_day - 1))

unfoldable pub from_date_time : ℕ → ℕ → ℕ → ℕ → ℕ → ℕ → ℤ
unfolding julian_day_of_1970_01_01
from_date_time year month days hour minutes seconds =
    let day = sub_ℕ (get_julian_day_number year month days) julian_day_of_1970_01_01 in
    times_day day +ℤ pos (hour * 3600 + minutes * 60 + seconds)

unfoldable pub from_utc_time : Tm → ℤ
unfolding from_date_time
from_utc_time utc =
    from_date_time (pos_part (utc.year +ℤ pos 1900)) (utc.mon + 1) utc.mday utc.hour utc.min utc.sec

pub record Transition : Type 0 where
  pub gmttime : ℤ
  pub localtime : ℤ
  pub localtime_idx : ℕ

pub record LocalTime : Type 0 where
  pub gmt_offset : ℤ
  pub is_dst : Bool
  pub arrb_idx : ℕ

pub record Data : Type 0 where
  pub transitions : List Transition
  pub localtimes : List LocalTime
  pub abbrviation : List ℕ

-- `Comp`: the time that is compared, and the two comparisons.
abbrev pub key : Bool → Transition → ℤ
key true t = t.gmttime
key false t = t.localtime

abbrev pub comp : Bool → Transition → Transition → Bool
comp compare_gmt lhs rhs = ltb_ℤ (key compare_gmt lhs) (key compare_gmt rhs)

abbrev pub equal : Bool → Transition → Transition → Bool
equal compare_gmt lhs rhs = not (comp compare_gmt lhs rhs) && not (comp compare_gmt rhs lhs)

-- `std::lower_bound` over a whole vector, as an index.
abbrev pub LowerBound : Type 0
LowerBound = (Transition → Transition → Bool) → List Transition → Transition → ℕ

-- The transition before the one found, but for an exact hit.
abbrev pub step_back :
    Bool → Transition → List Transition → ℕ → Option Transition → Option Transition
step_back compare_gmt sentry ts i none = get_elem? ts (length ts - 1)
step_back compare_gmt sentry ts i (some t) =
    if equal compare_gmt sentry t then some t else (if i == 0 then none else get_elem? ts (i - 1))

abbrev pub find_index : LowerBound → List Transition → Transition → Bool → Option ℕ
find_index lower_bound [] sentry compare_gmt = some 0
find_index lower_bound (first ∷ rest) sentry compare_gmt =
    if comp compare_gmt sentry first
    then some 0
    else let i = lower_bound (comp compare_gmt) (first ∷ rest) sentry in
      step_back compare_gmt sentry (first ∷ rest) i (get_elem? (first ∷ rest) i)
      >>= (λ t. some t.localtime_idx)

unfoldable pub find_local_time : LowerBound → Data → Transition → Bool → Option LocalTime
find_local_time lower_bound d sentry compare_gmt =
    find_index lower_bound d.transitions sentry compare_gmt >>= (λ i. get_elem? d.localtimes i)

abbrev pub sentry_at : ℤ → ℤ → Transition
sentry_at gmt local = record { gmttime = gmt; localtime = local; localtime_idx = 0 }

abbrev pub in_zone : LocalTime → Tm → Tm
in_zone local t = record t {
  isdst = local.is_dst;
  gmtoff = local.gmt_offset;
  zone = local.arrb_idx;
}

unfoldable pub to_local_time : LowerBound → (ℤ → Tm) → Data → ℤ → Option Tm
unfolding find_local_time
to_local_time lower_bound gmtime d seconds =
    find_local_time lower_bound d (sentry_at seconds (pos 0)) true
    >>= (λ local. some (in_zone local (gmtime (seconds +ℤ local.gmt_offset))))

-- The hour that is shown twice: outside of daylight saving time by the zone, within it by the caller.
abbrev pub adjusted : ℤ → Tm → Tm → ℤ
adjusted seconds localtime try_tm =
    if not try_tm.isdst && try_tm.hour == localtime.hour && try_tm.min == localtime.min
    then seconds -ℤ pos 3600
    else seconds

abbrev pub from_local_at : LowerBound → (ℤ → Tm) → Data → Tm → ℤ → LocalTime → Option ℤ
unfolding to_local_time
from_local_at lower_bound gmtime d localtime seconds local =
    if localtime.isdst
    then to_local_time lower_bound gmtime d (seconds -ℤ local.gmt_offset)
      >>= (λ try_tm. some (adjusted seconds localtime try_tm -ℤ local.gmt_offset))
    else some (seconds -ℤ local.gmt_offset)

unfoldable pub from_local_time : LowerBound → (ℤ → Tm) → (Tm → ℤ) → Data → Tm → Option ℤ
unfolding find_local_time from_local_at
from_local_time lower_bound gmtime timegm d localtime =
    let seconds = timegm localtime in
    find_local_time lower_bound d (sentry_at (pos 0) seconds) false
    >>= (λ local. from_local_at lower_bound gmtime d localtime seconds local)

-- The zone `eastOfUtc` seconds before Greenwich, all year.
unfoldable pub construct : ℤ → List ℕ → Data
construct east_of_utc tzname = record {
  transitions = [];
  localtimes = record { gmt_offset = east_of_utc; is_dst = false; arrb_idx = 0 } ∷ [];
  abbrviation = tzname;
}
