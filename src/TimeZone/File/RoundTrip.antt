-- ===== src/TimeZone/File/RoundTrip.antt =====
-- netlib/base/TimeZone.cc, `readTimeZoneFile`: what is written in the format of zone files is read back.
use netlib.Base.{
  ℕ, ◌-◌, ◌^◌, ◌<◌, ◌≡◌, refl, ap, subst, ◌∙◌, Bool, true, false, not, ◌==◌, if◌then◌else◌, ℤ, pos,
  negsuc, some, ◌>>=◌, List, [], ◌∷◌, ◌++◌, append_assoc, length, length-append, take-append_left,
  drop-append_left, All, map, le→leb, arith,
}
use netlib.Buffer.Endian.{be_value, be_bytes, be_value-be_bytes, length-be_bytes}
use netlib.TimeZone.{Transition, LocalTime, Data}
use netlib.TimeZone.File.{
  Bytes, read_bytes, to_int32, read_int32, read_uint8, magic, Counts, read_head, read_trans,
  read_localtimes, read_type, read_types, transition_at, transitions_of, read_times,
  read_time_zone_file, construct_from_file,
}

-- The format: big-endian words of 32 bits, in two's complement.
abbrev pub from_int32 : ℤ → ℕ
from_int32 (pos n) = n
from_int32 (negsuc n) = 2 ^ 32 - 1 - n

abbrev pub IsInt32 : ℤ → Type 0
IsInt32 (pos n) = n < 2 ^ 31
IsInt32 (negsuc n) = n < 2 ^ 31

abbrev pub int32 : ℤ → Bytes
int32 z = be_bytes 4 (from_int32 z)

-- A header with the counts that the code reads and does not use, then the times, the kinds and the
-- names.
pub record Rest : Type 0 where
  pub version : ℕ
  pub unused : Bytes
  pub isgmtcnt : ℤ
  pub isstdcnt : ℤ
  pub leapcnt : ℤ
  pub trailer : Bytes

abbrev pub times : List Transition → Bytes
times [] = []
times (t ∷ ts) = int32 t.gmttime ++ times ts

abbrev pub indices : List Transition → Bytes
indices [] = []
indices (t ∷ ts) = t.localtime_idx ∷ indices ts

abbrev pub kind : LocalTime → Bytes
kind l = int32 l.gmt_offset ++ (if l.is_dst then 1 else 0) ∷ l.arrb_idx ∷ []

abbrev pub kinds : List LocalTime → Bytes
kinds [] = []
kinds (l ∷ ls) = kind l ++ kinds ls

abbrev pub count : {A : Type 0} → List A → Bytes
count xs = int32 (pos (length xs))

pub encode : Rest → Data → Bytes
encode r d =
    magic
    ++ (r.version ∷ r.unused
        ++ (int32 r.isgmtcnt
            ++ (int32 r.isstdcnt
                ++ (int32 r.leapcnt
                    ++ (count d.transitions
                        ++ (count d.localtimes
                            ++ (count d.abbrviation
                                ++ (times d.transitions
                                    ++ (indices d.transitions
                                        ++ (kinds d.localtimes
                                            ++ (d.abbrviation ++ r.trailer)))))))))))

-- What the format can express: words of 32 bits, and each transition's local time by its kind.
pub record IsRest (r : Rest) : Type 0 where
  pub unused : length r.unused ≡ 15
  pub isgmtcnt : IsInt32 r.isgmtcnt
  pub isstdcnt : IsInt32 r.isstdcnt
  pub leapcnt : IsInt32 r.leapcnt

abbrev pub IsOf : List LocalTime → Transition → Type 0
IsOf locals t = IsInt32 t.gmttime × (transition_at locals t.gmttime t.localtime_idx ≡ some t)

pub record IsData (d : Data) : Type 0 where
  pub timecnt : length d.transitions < 2 ^ 31
  pub typecnt : length d.localtimes < 2 ^ 31
  pub charcnt : length d.abbrviation < 2 ^ 31
  pub transitions : All (IsOf d.localtimes) d.transitions
  pub offsets : All (λ (l : LocalTime). IsInt32 l.gmt_offset) d.localtimes

to_int32-from_int32 : (z : ℤ) → IsInt32 z → to_int32 (from_int32 z) ≡ z
to_int32-from_int32 (pos n) h = ground arith
to_int32-from_int32 (negsuc n) h = ground arith

from_int32-lt : (z : ℤ) → IsInt32 z → from_int32 z < 256 ^ 4
from_int32-lt (pos n) h = omega arith
from_int32-lt (negsuc n) h = omega arith

read_bytes-append : (bs f : Bytes) → read_bytes (length bs) (bs ++ f) ≡ some (bs, f)
unfolding read_bytes
read_bytes-append bs f =
    rw
      (
        le→leb (length bs) (length (bs ++ f)) (omega (arith, length-append bs f)),
        take-append_left bs f,
        drop-append_left bs f,
      )
      refl

read_int32-int32 : (z : ℤ) (f : Bytes) → IsInt32 z → read_int32 (int32 z ++ f) ≡ some (z, f)
unfolding read_int32
read_int32-int32 z f h =
    let bytes : read_bytes 4 (int32 z ++ f) ≡ some (int32 z, f) =
      subst (λ n. read_bytes n (int32 z ++ f) ≡ some (int32 z, f))
        (length-be_bytes 4 (from_int32 z)) (read_bytes-append (int32 z) f) in
    ap (λ o. o >>= (λ (bs, g). some (to_int32 (be_value 0 bs), g))) bytes
    ∙ ap (λ x. some (to_int32 x, f)) (be_value-be_bytes 4 (from_int32 z) (from_int32-lt z h))
    ∙ ap (λ y. some (y, f)) (to_int32-from_int32 z h)

read_trans-times :
    (locals : List LocalTime) (ts : List Transition) (f : Bytes)
    → All (IsOf locals) ts
    → read_trans (length ts) (times ts ++ f) ≡ some (map (λ t. t.gmttime) ts, f)
unfolding read_trans
read_trans-times locals [] f a = refl
read_trans-times locals (t ∷ ts) f ((h, _), a) =
    rw
      (
        append_assoc (int32 t.gmttime) (times ts) f,
        read_int32-int32 t.gmttime (times ts ++ f) h,
        read_trans-times locals ts f a,
      )
      refl

read_localtimes-indices :
    (ts : List Transition) (f : Bytes)
    → read_localtimes (length ts) (indices ts ++ f) ≡ some (map (λ t. t.localtime_idx) ts, f)
unfolding read_localtimes read_uint8
read_localtimes-indices [] f = refl
read_localtimes-indices (t ∷ ts) f = rw (read_localtimes-indices ts f) refl

flag-back : (b : Bool) → not ((if b then 1 else 0) == 0) ≡ b
flag-back true = refl
flag-back false = refl

read_type-kind :
    (l : LocalTime) (f : Bytes) → IsInt32 l.gmt_offset → read_type (kind l ++ f) ≡ some (l, f)
unfolding read_type read_uint8
read_type-kind l f h =
    let flag : ℕ = if l.is_dst then 1 else 0 in
    rw
      (
        append_assoc (int32 l.gmt_offset) (flag ∷ l.arrb_idx ∷ []) f,
        read_int32-int32 l.gmt_offset (flag ∷ l.arrb_idx ∷ f) h,
        flag-back l.is_dst,
      )
      refl

read_types-kinds :
    (ls : List LocalTime) (f : Bytes)
    → All (λ (l : LocalTime). IsInt32 l.gmt_offset) ls
    → read_types (length ls) (kinds ls ++ f) ≡ (ls, some f)
unfolding read_types
read_types-kinds [] f a = refl
read_types-kinds (l ∷ ls) f (h, a) =
    rw
      (
        append_assoc (kind l) (kinds ls) f,
        read_type-kind l (kinds ls ++ f) h,
        read_types-kinds ls f a,
      )
      refl

transitions_of-map :
    (locals : List LocalTime) (ts : List Transition)
    → All (IsOf locals) ts
    → transitions_of locals (map (λ t. t.gmttime) ts) (map (λ t. t.localtime_idx) ts) ≡ some ts
unfolding transitions_of
transitions_of-map locals [] a = refl
transitions_of-map locals (t ∷ ts) ((_, h), a) = rw (h, transitions_of-map locals ts a) refl

counts : Data → Counts
counts d = record {
  timecnt = pos (length d.transitions);
  typecnt = pos (length d.localtimes);
  charcnt = pos (length d.abbrviation);
}

body : Rest → Data → Bytes
body r d =
    times d.transitions
    ++ (indices d.transitions ++ (kinds d.localtimes ++ (d.abbrviation ++ r.trailer)))

read_head-encode :
    (r : Rest) (d : Data) → IsRest r → IsData d → read_head (encode r d) ≡ some (counts d, body r d)
unfolding read_head encode counts body
read_head-encode r d v w =
    let f8 = count d.abbrviation ++ body r d in
    let f7 = count d.localtimes ++ f8 in
    let f6 = count d.transitions ++ f7 in
    let f5 = int32 r.leapcnt ++ f6 in
    let f4 = int32 r.isstdcnt ++ f5 in
    let f3 = int32 r.isgmtcnt ++ f4 in
    let f2 = r.unused ++ f3 in
    let fifteen : read_bytes 15 f2 ≡ some (r.unused, f3) =
      subst (λ n. read_bytes n f2 ≡ some (r.unused, f3)) v.unused (read_bytes-append r.unused f3) in
    rw
      (
        read_bytes-append magic (r.version ∷ f2),
        read_bytes-append (r.version ∷ []) f2,
        fifteen,
        read_int32-int32 r.isgmtcnt f4 v.isgmtcnt,
        read_int32-int32 r.isstdcnt f5 v.isstdcnt,
        read_int32-int32 r.leapcnt f6 v.leapcnt,
        read_int32-int32 (pos (length d.transitions)) f7 w.timecnt,
        read_int32-int32 (pos (length d.localtimes)) f8 w.typecnt,
        read_int32-int32 (pos (length d.abbrviation)) (body r d) w.charcnt,
      )
      refl

read_times-encode :
    (r : Rest) (d : Data)
    → IsRest r
    → IsData d
    → read_times (encode r d)
      ≡ some (
        counts d,
        map (λ t. t.gmttime) d.transitions,
        map (λ t. t.localtime_idx) d.transitions,
        kinds d.localtimes ++ (d.abbrviation ++ r.trailer),
      )
unfolding read_times counts body
read_times-encode r d v w =
    let f1 = kinds d.localtimes ++ (d.abbrviation ++ r.trailer) in
    rw
      (
        read_head-encode r d v w,
        read_trans-times d.localtimes d.transitions (indices d.transitions ++ f1) w.transitions,
        read_localtimes-indices d.transitions f1,
      )
      refl

-- Every zone that the format can express is read back from its file, whatever the file says of leap
-- seconds and whatever follows the names.
pub construct_from_file-encode :
    (r : Rest) (d : Data) → IsRest r → IsData d → construct_from_file (some (encode r d)) ≡ some d
unfolding construct_from_file read_time_zone_file counts
construct_from_file-encode r d v w =
    rw
      (
        read_times-encode r d v w,
        read_types-kinds d.localtimes (d.abbrviation ++ r.trailer) w.offsets,
        transitions_of-map d.localtimes d.transitions w.transitions,
        read_bytes-append d.abbrviation r.trailer,
      )
      refl
