-- ===== src/Time/Text.antt =====
-- netlib/base/Time.cc: a time comes back from its text.
use netlib.Base.{
  ℕ, suc, ◌+◌, ◌-◌, ◌*◌, ◌/◌, ◌%◌, ◌^◌, ◌<◌, ◌≡◌, true, false, ◌==◌, if◌then◌else◌, List, [], ◌∷◌,
  ◌++◌, length, length-append, length-take, ℤ, pos, ◌+ℤ◌, arith,
}
use netlib.LogStream.{convert}
use netlib.LogStream.Decimal.{read_from, length-convert_lt}
use netlib.Logging.{pad, decimal}
use netlib.TimeZone.{Tm}
use netlib.Logging.Stamp.{IsTm, length-pad, length-fields, length-year}
use netlib.Time.{blanks, date_text, to_formatted_string}

-- Seconds up to the point, then a decimal fraction of a second, of six digits at most: one that is
-- missing at its end is a 0.
abbrev pub read_time : ℕ → List ℕ → ℕ
read_time n [] = n
read_time n (c ∷ cs) =
    let rest = read_time (n * 10 + (c - 48)) cs in
    if c == 46 then n * 1000000 + read_from 0 cs * 10 ^ (6 - length cs) else rest

length-blanks : (k n : ℕ) → n < 10 ^ suc k → length (blanks (suc k) n) ≡ suc k
length-blanks k n h = length-pad 32 (suc k) (convert false n) (length-convert_lt k n h)

length-date_text : (t : Tm) → IsTm t → length (date_text t) ≡ 17
length-date_text t v =
    length-fields (pad 32 4 (decimal (t.year +ℤ pos 1900))) (blanks 2 (t.mon + 1)) (blanks 2 t.mday)
      (blanks 2 t.hour) (blanks 2 t.min) (blanks 2 t.sec) (length-year t v)
      (length-blanks 1 (t.mon + 1) (omega (arith, v.mon_lt)))
      (length-blanks 1 t.mday (omega (arith, v.mday_lt)))
      (length-blanks 1 t.hour (omega (arith, v.hour_lt)))
      (length-blanks 1 t.min (omega (arith, v.min_lt)))
      (length-blanks 1 t.sec (omega (arith, v.sec_lt)))

-- By a calendar with years of four digits, the formatted text has a fixed length and fits the buffer.
to_formatted_string-Fits :
    (gmtime : ℤ → Tm) (time : ℕ)
    → IsTm (gmtime (pos (time / 1000000)))
    → (length (to_formatted_string gmtime true time) ≡ 24)
      × (length (to_formatted_string gmtime false time) ≡ 17)
unfolding to_formatted_string
to_formatted_string-Fits gmtime time v =
    let text = date_text (gmtime (pos (time / 1000000))) in
    let micros = blanks 6 (time % 1000000) in
    let l = length-date_text (gmtime (pos (time / 1000000))) v in
    let m = length-blanks 5 (time % 1000000) (omega arith) in
    let whole = length-append text (46 ∷ micros) in
    (
      omega (arith, l, m, whole, length-take 63 (text ++ 46 ∷ micros)),
      omega (arith, l, length-take 63 text),
    )
