-- ===== src/TimeZone/Examples.antt =====
-- netlib/base/TimeZone.cc: times before and after 1970, and a zone with summer time.
use netlib.Base.{
  replicate, some, ◌+ℤ◌, ◌≡◌, refl, ap, ℕ, suc, pos, negsuc, Bool, true, false, if◌then◌else◌,
  Bool-cases, inl, inr, List, [], ◌∷◌, All-map, get_elem?, arith,
}
use netlib.TimeZone.{
  Tm, Transition, LocalTime, Data, LowerBound, comp, to_utc_time, from_utc_time, find_local_time,
  sentry_at,
}
use netlib.TimeZone.File.{construct_from_file}
use netlib.TimeZone.File.RoundTrip.{Rest, IsRest, IsData, encode, construct_from_file-encode}
use netlib.TimeZone.Utc.{from_utc_time-to_utc_time}
use netlib.TimeZone.Transitions.{in_force, Sorted, Bound, find_local_time-in_force}

from_utc_time-to_utc_time_example :
    (t : Tm) × (to_utc_time (negsuc 0) true ≡ some t) × (from_utc_time t ≡ negsuc 0)
from_utc_time-to_utc_time_example = from_utc_time-to_utc_time (negsuc 0) true (omega arith)

-- `std::lower_bound` by a walk.
walk : LowerBound
walk before [] v = 0
walk before (x ∷ xs) v = let rest = walk before xs v in if before x v then suc rest else 0

walk-Bound :
    (gmt : Bool) (ts : List Transition) (v : Transition)
    → Sorted gmt ts
    → Bound (comp gmt) ts v (walk (comp gmt) ts v)
unfolding walk
walk-Bound gmt [] v s = record {
  less = [];
  others = [];
  parts = refl;
  index = refl;
  all_less = tt;
  none_less = tt;
}
walk-Bound gmt (x ∷ xs) v s = elim (Bool-cases (comp gmt x v)) [
  | inl less ↦
      let b = walk-Bound gmt xs v s.1 in
      rw less (record {
        less = x ∷ b.less;
        others = b.others;
        parts = ap (λ ts. x ∷ ts) b.parts;
        index = ap suc b.index;
        all_less = (less, b.all_less);
        none_less = b.none_less;
      })
  | inr more ↦ rw more (record {
    less = [];
    others = x ∷ xs;
    parts = refl;
    index = refl;
    all_less = tt;
    none_less = (more, All-map (λ y h. ground (arith, more, h)) xs s.0);
  })
]

abbrev change : ℕ → ℕ → ℕ → Transition
change gmt local i = record { gmttime = pos gmt; localtime = pos local; localtime_idx = i }

abbrev summer : Data
summer = record {
  transitions = change 100 107 1 ∷ change 200 206 0 ∷ [];
  localtimes =
      record { gmt_offset = pos 6; is_dst = false; arrb_idx = 0 }
      ∷ record { gmt_offset = pos 7; is_dst = true; arrb_idx = 4 }
      ∷ [];
  abbrviation = 87 ∷ 0 ∷ 83 ∷ 0 ∷ 83 ∷ 0 ∷ [];
}

find_local_time-in_force_example :
    (l : LocalTime) × (find_local_time walk summer (sentry_at (pos 150) (pos 0)) true ≡ some l)
    × (get_elem? summer.localtimes (in_force true (pos 150) 0 summer.transitions) ≡ some l)
find_local_time-in_force_example =
    find_local_time-in_force walk walk-Bound summer (sentry_at (pos 150) (pos 0)) true
      ((refl, tt), (tt, tt)) (omega arith) (omega arith, (omega arith, tt))

abbrev rest : Rest
rest = record {
  version = 50;
  unused = replicate 15 0;
  isgmtcnt = pos 2;
  isstdcnt = pos 2;
  leapcnt = pos 0;
  trailer = 10 ∷ [];
}

rest-IsRest : IsRest rest
rest-IsRest = record {
  unused = refl;
  isgmtcnt = omega arith;
  isstdcnt = omega arith;
  leapcnt = omega arith;
}

summer-IsData : IsData summer
unfolding ◌+ℤ◌
summer-IsData = record {
  timecnt = omega arith;
  typecnt = omega arith;
  charcnt = omega arith;
  transitions = ((omega arith, refl), ((omega arith, refl), tt));
  offsets = (omega arith, (omega arith, tt));
}

construct_from_file-encode_example : construct_from_file (some (encode rest summer)) ≡ some summer
construct_from_file-encode_example =
    construct_from_file-encode rest summer rest-IsRest summer-IsData
