-- ===== src/Time.antt =====
-- netlib/base/Time.h and Time.cc: a time is its number of microseconds since the epoch, from
-- there on but for `toString`.
-- What `snprintf` prints for a number is the text of `convert`, and it keeps one byte less than its
-- buffer has. The clock and `gmtime_r` are arguments. Sums and differences in floating-point seconds
-- are not modelled.
mod Text
mod Examples
use netlib.Base.{
  ℕ, ◌+◌, ◌*◌, ◌/◌, ◌%◌, Bool, true, false, ltb, suc, ℤ, pos, negsuc, div_ℤ, mod_ℤ, ◌+ℤ◌, List, [],
  ◌∷◌, ◌++◌, take,
}
use netlib.LogStream.{convert}
use netlib.Logging.{pad, zeros, decimal}
use netlib.TimeZone.{Tm}

abbrev pub micro_seconds_per_second : ℕ
micro_seconds_per_second = 1000000

-- The constructor for seconds and microseconds, which `now` calls with those of the clock.
unfoldable pub from_seconds : ℕ → ℕ → ℕ
from_seconds second micro_seconds = micro_seconds + second * micro_seconds_per_second

unfoldable pub from_unix_time : ℕ → ℕ → ℕ
from_unix_time t microseconds = t * micro_seconds_per_second + microseconds

unfoldable pub get_second_since_epoch : ℕ → ℕ
get_second_since_epoch time = time / micro_seconds_per_second

unfoldable pub vaild : ℕ → Bool
vaild time = ltb 0 time

-- "%06d", whose sign counts for the width.
abbrev pub six_digits : ℤ → List ℕ
six_digits (pos n) = zeros 6 n
six_digits (negsuc n) = 45 ∷ pad 48 5 (convert false (suc n))

-- "%d.%06d", for times before the epoch too.
unfoldable pub to_string : ℤ → List ℕ
to_string time =
    let seconds = div_ℤ time micro_seconds_per_second in
    let microseconds = mod_ℤ time micro_seconds_per_second in
    take 31 (decimal seconds ++ 46 ∷ six_digits microseconds)

-- "%wd": blanks in front.
abbrev pub blanks : ℕ → ℕ → List ℕ
blanks width n = pad 32 width (convert false n)

-- "%4d%2d%2d %2d:%2d:%2d"
abbrev pub date_text : Tm → List ℕ
date_text t =
    pad 32 4 (decimal (t.year +ℤ pos 1900))
    ++ (blanks 2 (t.mon + 1)
        ++ (blanks 2 t.mday
            ++ (32 ∷ blanks 2 t.hour ++ (58 ∷ blanks 2 t.min ++ (58 ∷ blanks 2 t.sec)))))

unfoldable pub to_formatted_string : (ℤ → Tm) → Bool → ℕ → List ℕ
to_formatted_string gmtime true time =
    let t = gmtime (pos (time / micro_seconds_per_second)) in
    take 63 (date_text t ++ 46 ∷ blanks 6 (time % micro_seconds_per_second))
to_formatted_string gmtime false time =
    take 63 (date_text (gmtime (pos (time / micro_seconds_per_second))))
