-- ===== src/Logging/Stamp.antt =====
-- netlib/base/Logging.cc, `formatTime`: the text of a second that is kept is that of the second.
use netlib.Base.{
  ℕ, ◌+◌, ◌-◌, ◌/◌, ◌%◌, ◌<◌, ◌≤◌, ◌≡◌, refl, sym, ap, ◌∙◌, ◌⊎◌, inl, inr, false, ◌==◌, ==_iff,
  ==_refl, Bool-cases, ℤ, pos, ◌+ℤ◌, Option, none, some, [], ◌∷◌, ◌++◌, length, length-append,
  length-replicate, replicate, arith,
}
use netlib.LogStream.{convert, string}
use netlib.LogStream.Decimal.{length-convert_lt}
use netlib.TimeZone.{Tm, Data, LowerBound}
use netlib.Logging.{
  Bytes, pad, decimal, zeros, calendar_text, micro_text, micro_length, Cache, construct_cache,
  calendar, second_text, update_cache, format_time,
}

pub length-pad : (c width : ℕ) (cs : Bytes) → length cs ≤ width → length (pad c width cs) ≡ width
length-pad c width cs h = omega (
  arith,
  h,
  length-append (replicate (width - length cs) c) cs,
  length-replicate (width - length cs) c,
)

length-zeros2 : (n : ℕ) → n < 100 → length (zeros 2 n) ≡ 2
unfolding zeros
length-zeros2 n h = length-pad 48 2 (convert false n) (length-convert_lt 1 n (omega arith))

length-zeros6 : (n : ℕ) → n < 1000000 → length (zeros 6 n) ≡ 6
unfolding zeros
length-zeros6 n h = length-pad 48 6 (convert false n) (length-convert_lt 5 n (omega arith))

-- A time from the year 0 to 9999.
pub record IsTm (t : Tm) : Type 0 where
  pub year : ℕ
  pub is_year : t.year +ℤ pos 1900 ≡ pos year
  pub year_lt : year < 10000
  pub mon_lt : t.mon < 12
  pub mday_lt : t.mday < 32
  pub hour_lt : t.hour < 24
  pub min_lt : t.min < 60
  pub sec_lt : t.sec < 61

-- A date and a time of day from six fields of fixed lengths.
pub length-fields :
    (year mon mday hour min sec : Bytes)
    → length year ≡ 4
    → length mon ≡ 2
    → length mday ≡ 2
    → length hour ≡ 2
    → length min ≡ 2
    → length sec ≡ 2
    → length (year ++ (mon ++ (mday ++ (32 ∷ hour ++ (58 ∷ min ++ (58 ∷ sec)))))) ≡ 17
length-fields year mon mday hour min sec a b c d e f = omega (
  arith,
  a,
  b,
  c,
  d,
  e,
  f,
  length-append year (mon ++ (mday ++ (32 ∷ hour ++ (58 ∷ min ++ (58 ∷ sec))))),
  length-append mon (mday ++ (32 ∷ hour ++ (58 ∷ min ++ (58 ∷ sec)))),
  length-append mday (32 ∷ hour ++ (58 ∷ min ++ (58 ∷ sec))),
  length-append hour (58 ∷ min ++ (58 ∷ sec)),
  length-append min (58 ∷ sec),
)

pub length-year : (t : Tm) → IsTm t → length (pad 32 4 (decimal (t.year +ℤ pos 1900))) ≡ 4
length-year t v =
    rw v.is_year (
      length-pad 32 4 (convert false v.year)
        (length-convert_lt 3 v.year (omega (arith, v.year_lt))))

length-calendar_text : (t : Tm) → IsTm t → length (calendar_text t) ≡ 17
unfolding calendar_text
length-calendar_text t v =
    length-fields (pad 32 4 (decimal (t.year +ℤ pos 1900))) (zeros 2 (t.mon + 1)) (zeros 2 t.mday)
      (zeros 2 t.hour) (zeros 2 t.min) (zeros 2 t.sec) (length-year t v)
      (length-zeros2 (t.mon + 1) (omega (arith, v.mon_lt)))
      (length-zeros2 t.mday (omega (arith, v.mday_lt)))
      (length-zeros2 t.hour (omega (arith, v.hour_lt)))
      (length-zeros2 t.min (omega (arith, v.min_lt)))
      (length-zeros2 t.sec (omega (arith, v.sec_lt)))

length-micro_text :
    (zone : Option Data) (us : ℕ) → us < 1000000 → length (micro_text zone us) ≡ micro_length zone
length-micro_text none us h =
    omega (arith, length-append (zeros 6 us) (90 ∷ 32 ∷ []), length-zeros6 us h)
length-micro_text (some d) us h =
    omega (arith, length-append (zeros 6 us) (32 ∷ []), length-zeros6 us h)

abbrev or_empty : Option Bytes → Bytes
or_empty none = []
or_empty (some cs) = cs

module _ (lower_bound : LowerBound) (gmtime : ℤ → Tm) (zone : Option Data) where
  -- The kept text is that of the kept second, from the first message on.
  abbrev pub IsCached : Cache → Type 0
  IsCached c =
      (c.last_second ≡ 0) ⊎ (second_text lower_bound gmtime zone c.last_second ≡ some c.time)

  pub construct_cache-IsCached : IsCached construct_cache
  unfolding construct_cache
  construct_cache-IsCached = inl refl

  second_text-calendar :
      (seconds : ℕ) (t : Tm)
      → calendar lower_bound gmtime zone seconds ≡ some t
      → IsTm t
      → second_text lower_bound gmtime zone seconds ≡ some (calendar_text t)
  unfolding second_text
  second_text-calendar seconds t e v = rw (e, length-calendar_text t v) refl

  update_cache-Fresh :
      (seconds : ℕ) (c : Cache) (text : Bytes)
      → IsCached c
      → 0 < seconds
      → second_text lower_bound gmtime zone seconds ≡ some text
      → update_cache lower_bound gmtime zone seconds c
        ≡ some (record { last_second = seconds; time = text })
  unfolding update_cache
  update_cache-Fresh seconds c text v later e = elim (Bool-cases (seconds == c.last_second)) [
    | inr other ↦ rw (other, e) refl
    | inl same ↦
        let at : seconds ≡ c.last_second = (==_iff seconds c.last_second).0 same in
        elim v [
          | inl unset ↦ absurd (omega (arith, at, unset, later))
          | inr kept ↦
              let same_text : some text ≡ some c.time =
                sym e ∙ ap (λ s. second_text lower_bound gmtime zone s) at ∙ kept in
              let same_time : text ≡ c.time = ap or_empty same_text in
              rw same (
                sym (
                  ap (λ i. some (record { last_second = i; time = text })) at
                  ∙ ap (λ x. some (record { last_second = c.last_second; time = x })) same_time))
        ]
  ]

  -- A message at any time after the first second of the epoch, by a calendar with years of four
  -- digits, in a thread whose cache is empty or was last filled in the zone that is set now, so that
  -- no change of the zone came since: no assertion fails, what is put before it is the date and time
  -- of its second in that zone, and its microseconds, and the cache is then one filled in that zone.
  pub format_time-Stamped :
      (micros : ℕ) (c : Cache) (t : Tm)
      → IsCached c
      → 0 < micros / 1000000
      → calendar lower_bound gmtime zone (micros / 1000000) ≡ some t
      → IsTm t
      → (d : Cache) × IsCached d
        × (format_time lower_bound gmtime zone micros c
            ≡ some (d, string (calendar_text t) ∷ string (micro_text zone (micros % 1000000)) ∷ []))
  unfolding format_time
  format_time-Stamped micros c t v later e w =
      let text = second_text-calendar (micros / 1000000) t e w in
      let us = length-micro_text zone (micros % 1000000) (omega arith) in
      (
        record { last_second = micros / 1000000; time = calendar_text t },
        inr text,
        rw
            (
              update_cache-Fresh (micros / 1000000) c (calendar_text t) v later text,
              length-calendar_text t w,
              us,
              ==_refl (micro_length zone),
            )
            refl,
      )
