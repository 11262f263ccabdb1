-- ===== src/TimeZone/Local.antt =====
-- netlib/base/TimeZone.cc: local times of a zone that never changes its offset.
use netlib.Base.{◌≡◌, ap, ◌∙◌, ℕ, List, ℤ, ◌+ℤ◌, ◌-ℤ◌, false, some, ◌>>=◌, arith}
use netlib.TimeZone.{
  Tm, LocalTime, LowerBound, in_zone, find_local_time, to_local_time, from_local_time, construct,
}

+ℤ-cancel : (a b : ℤ) → (a +ℤ b) -ℤ b ≡ a
unfolding ◌+ℤ◌ ◌-ℤ◌
+ℤ-cancel a b = ground arith

abbrev rule : ℤ → LocalTime
rule east = record { gmt_offset = east; is_dst = false; arrb_idx = 0 }

-- A time comes back from its local time in a fixed zone, if `timegm` undoes `gmtime_r` there,
-- whatever the fields of the zone hold.
from_local_time-to_local_time :
    (lower_bound : LowerBound) (gmtime : ℤ → Tm) (timegm : Tm → ℤ) (east s : ℤ) (tzname : List ℕ)
    → timegm (in_zone (rule east) (gmtime (s +ℤ east))) ≡ s +ℤ east
    → (to_local_time lower_bound gmtime (construct east tzname) s
        >>= from_local_time lower_bound gmtime timegm (construct east tzname))
      ≡ some s
unfolding to_local_time from_local_time find_local_time construct
from_local_time-to_local_time lower_bound gmtime timegm east s tzname undoes =
    ap (λ t. some (t -ℤ east)) undoes ∙ ap some (+ℤ-cancel s east)
