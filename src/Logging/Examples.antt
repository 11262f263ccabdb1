-- ===== src/Logging/Examples.antt =====
-- netlib/base/Logging.cc: a statement in the second second of 1970, of thread 42.
use netlib.Base.{
  ◌≡◌, refl, true, false, ℤ, pos, ◌+ℤ◌, ◌-ℤ◌, Option, none, some, List, [], ◌∷◌, ◌++◌, arith,
}
use netlib.Date.{get_year_month_day, year_month_day_of, julian_day_of_1970_01_01}
use netlib.LogStream.{Item, string, integer, convert, digits, text}
use netlib.AsyncLogging.{construct, construct_writer}
use netlib.AsyncLogging.Lines.{Succeeds, appends, happens, start-Sound}
use netlib.TimeZone.{
  Tm, Data, LowerBound, zero_tm, cast_int, to_utc_time, utc_of, fill_date, fill_yday,
}
use netlib.Logging.{
  Bytes, info, error, warn, fatal, Cache, construct_cache, calendar_text, micro_text, zeros,
  format_time, log_error, logger_of, log_fatal, log, outputs, flushes, aborts, large_buffer, Moment,
  Place,
}
use netlib.Logging.Stamp.{IsTm, IsCached, construct_cache-IsCached, format_time-Stamped}
use netlib.Logging.Line.{CanLog, line_text, log-Line, log-Delivers}

-- No zone is set, so that nothing is searched.
abbrev no_bound : LowerBound
no_bound before ts v = 0

abbrev get_or : Tm → Option Tm → Tm
get_or t none = t
get_or t (some u) = u

abbrev gmtime : ℤ → Tm
gmtime s = get_or zero_tm (to_utc_time s false)

abbrev no_zone : Option Data
no_zone = none

abbrev tm : Tm
tm = gmtime (pos 1)

tm-IsTm : IsTm tm
unfolding to_utc_time cast_int utc_of fill_date fill_yday get_year_month_day year_month_day_of
    julian_day_of_1970_01_01 ◌+ℤ◌ ◌-ℤ◌
tm-IsTm = record {
  year = 1970;
  is_year = refl;
  year_lt = omega arith;
  mon_lt = omega arith;
  mday_lt = omega arith;
  hour_lt = omega arith;
  min_lt = omega arith;
  sec_lt = omega arith;
}

format_time-Stamped_example :
    (d : Cache) × IsCached no_bound gmtime no_zone d
    × (format_time no_bound gmtime no_zone 1000007 construct_cache
        ≡ some (d, string (calendar_text tm) ∷ string (micro_text no_zone 7) ∷ []))
format_time-Stamped_example =
    format_time-Stamped no_bound gmtime no_zone 1000007 construct_cache tm
      (construct_cache-IsCached no_bound gmtime no_zone) (omega arith) refl tm-IsTm

abbrev moment : Moment
moment = record { micros = 1000007; tid = 42 }

abbrev place : Place
place = record { file = record { text = 98 ∷ []; size = 1 }; line = 12; func = 102 ∷ [] }

-- "n=" and a number.
abbrev body : List Item
body = string (110 ∷ 61 ∷ []) ∷ integer true 5 ∷ []

body-CanLog : CanLog no_bound gmtime no_zone moment place body construct_cache tm
body-CanLog = record {
  cached = construct_cache-IsCached no_bound gmtime no_zone;
  later = omega arith;
  date = refl;
  valid = tm-IsTm;
  prints = (tt, (omega arith, tt));
  line_lt = omega arith;
}

log-Line_example :
    (d : Cache) × IsCached no_bound gmtime no_zone d
    × (log no_bound gmtime no_zone warn moment place log_fatal body construct_cache
        ≡ some (
          d,
          outputs (line_text no_zone tm moment place fatal false body) ∷ flushes ∷ aborts ∷ [],
        ))
unfolding text to_utc_time cast_int utc_of fill_date fill_yday get_year_month_day year_month_day_of
    julian_day_of_1970_01_01 ◌+ℤ◌ ◌-ℤ◌ convert digits calendar_text zeros logger_of
log-Line_example =
    log-Line no_bound gmtime no_zone warn moment place log_fatal body construct_cache tm fatal false
      body-CanLog refl (omega arith)

log-Delivers_example :
    (d : Cache) × (line : Bytes) × (log no_bound gmtime no_zone info moment place log_error body
        construct_cache
      ≡ some (d, outputs line ∷ []))
    × Succeeds ([] ++ line) (
        happens large_buffer
          (appends line)
          (record { front = construct; back = construct_writer; writing = false }))
unfolding logger_of
log-Delivers_example =
    log-Delivers no_bound gmtime no_zone info moment place log_error body construct_cache tm error
      false body-CanLog refl []
      (record { front = construct; back = construct_writer; writing = false }) start-Sound
