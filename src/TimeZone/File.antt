-- ===== src/TimeZone/File.antt =====
-- netlib/base/TimeZone.cc, `File` and `readTimeZoneFile`: a zone file of version 1. A file is the bytes
-- that are left of it, and `none` where `fopen` failed. Reading is an Option, `none` where the code
-- throws, but for the loop over the kinds of local time, which fills `data` as it goes. The result is
-- `none` where an index is out of range or an array has a negative length.
pub mod RoundTrip
use netlib.Base.{
  ℕ, zero, suc, ◌-◌, ◌^◌, Bool, true, false, not, ◌&&◌, ◌==◌, ltb, leb, if◌then◌else◌, ℤ, pos,
  negsuc, ◌+ℤ◌, ltb_ℤ, pos_part, Option, none, some, ◌>>=◌, ◌>>◌, assert, List, [], ◌∷◌, ◌++◌,
  length, get_elem?, take, drop,
}
use netlib.Buffer.Endian.{be_value}
use netlib.TimeZone.{Transition, LocalTime, Data}

abbrev pub Bytes : Type 0
Bytes = List ℕ

unfoldable pub read_bytes : ℕ → Bytes → Option (Bytes × Bytes)
read_bytes n f = if leb n (length f) then some (take n f, drop n f) else none

-- A word of 32 bits as an int32_t.
abbrev pub to_int32 : ℕ → ℤ
to_int32 x = if ltb x (2 ^ 31) then pos x else negsuc (2 ^ 32 - 1 - x)

unfoldable pub read_int32 : Bytes → Option (ℤ × Bytes)
read_int32 f = read_bytes 4 f >>= (λ (bs, g). some (to_int32 (be_value 0 bs), g))

unfoldable pub read_uint8 : Bytes → Option (ℕ × Bytes)
read_uint8 [] = none
read_uint8 (x ∷ f) = some (x, f)

-- "TZif"
abbrev pub magic : Bytes
magic = 84 ∷ 90 ∷ 105 ∷ 102 ∷ []

abbrev pub same_bytes : Bytes → Bytes → Bool
same_bytes [] [] = true
same_bytes [] (y ∷ ys) = false
same_bytes (x ∷ xs) [] = false
same_bytes (x ∷ xs) (y ∷ ys) = (x == y) && same_bytes xs ys

pub record Counts : Type 0 where
  pub timecnt : ℤ
  pub typecnt : ℤ
  pub charcnt : ℤ

unfoldable pub read_head : Bytes → Option (Counts × Bytes)
read_head f = do
  (head, f) ← read_bytes 4 f
  assert (same_bytes head magic)
  (version, f) ← read_bytes 1 f
  (unused, f) ← read_bytes 15 f
  (isgmtcnt, f) ← read_int32 f
  (isstdcnt, f) ← read_int32 f
  (leapcnt, f) ← read_int32 f
  (timecnt, f) ← read_int32 f
  (typecnt, f) ← read_int32 f
  (charcnt, f) ← read_int32 f
  some (record { timecnt = timecnt; typecnt = typecnt; charcnt = charcnt }, f)

unfoldable pub read_trans : ℕ → Bytes → Option (List ℤ × Bytes)
read_trans zero f = some ([], f)
read_trans (suc n) f = do (t, f) ← read_int32 f; (ts, f) ← read_trans n f; some (t ∷ ts, f)

unfoldable pub read_localtimes : ℕ → Bytes → Option (List ℕ × Bytes)
read_localtimes zero f = some ([], f)
read_localtimes (suc n) f = do
  (i, f) ← read_uint8 f
  (is, f) ← read_localtimes n f
  some (i ∷ is, f)

unfoldable pub read_type : Bytes → Option (LocalTime × Bytes)
read_type f = do
  (gmtoff, f) ← read_int32 f
  (isdist, f) ← read_uint8 f
  (abbrind, f) ← read_uint8 f
  some (record { gmt_offset = gmtoff; is_dst = not (isdist == 0); arrb_idx = abbrind }, f)

-- What was pushed, and what is left of the file unless the loop was left by a throw.
abbrev pub Pushed : Type 0
Pushed = List LocalTime × Option Bytes

abbrev pub push : LocalTime → Pushed → Pushed
push local (locals, left) = (local ∷ locals, left)

-- One turn, with the turns after it.
abbrev pub push_next : (Bytes → Pushed) → Option (LocalTime × Bytes) → Pushed
push_next rest none = ([], none)
push_next rest (some (local, f)) = push local (rest f)

unfoldable pub read_types : ℕ → Bytes → Pushed
read_types zero f = ([], some f)
read_types (suc n) f = push_next (read_types n) (read_type f)

abbrev pub transition_at : List LocalTime → ℤ → ℕ → Option Transition
transition_at locals t i = get_elem? locals i >>= (λ local.
    some (record { gmttime = t; localtime = t +ℤ local.gmt_offset; localtime_idx = i }))

unfoldable pub transitions_of : List LocalTime → List ℤ → List ℕ → Option (List Transition)
transitions_of locals [] is = some []
transitions_of locals (t ∷ ts) [] = none
transitions_of locals (t ∷ ts) (i ∷ is) = do
  x ← transition_at locals t i
  xs ← transitions_of locals ts is
  some (x ∷ xs)

abbrev pub empty_data : Data
empty_data = record { transitions = []; localtimes = []; abbrviation = [] }

-- The names, which stay empty where the file ends before them.
abbrev pub names : Option (Bytes × Bytes) → Bytes
names none = []
names (some (bs, f)) = bs

abbrev pub is_negative : ℤ → Bool
is_negative (pos n) = false
is_negative (negsuc n) = true

-- After the loop over the kinds.
abbrev pub read_rest : Counts → List ℤ → List ℕ → Pushed → Option Data
read_rest c ts is (locals, none) = some (record empty_data { localtimes = locals })
read_rest c ts is (locals, some f) = do
  transitions ← transitions_of locals ts is
  assert (not (is_negative c.charcnt))
  some (record {
    transitions = transitions;
    localtimes = locals;
    abbrviation = names (read_bytes (pos_part c.charcnt) f);
  })

-- Up to the loop over the kinds; `reserve` throws at a negative count.
unfoldable pub read_times : Bytes → Option (Counts × List ℤ × List ℕ × Bytes)
read_times f = do
  (c, f) ← read_head f
  assert (not (is_negative c.timecnt))
  (ts, f) ← read_trans (pos_part c.timecnt) f
  (is, f) ← read_localtimes (pos_part c.timecnt) f
  some (c, ts, is, f)

-- What was read is kept where the code throws.
abbrev pub read_data : Option (Counts × List ℤ × List ℕ × Bytes) → Option Data
read_data none = some empty_data
read_data (some (c, ts, is, f)) = read_rest c ts is (read_types (pos_part c.typecnt) f)

unfoldable pub read_time_zone_file : Option Bytes → Option Data
read_time_zone_file none = some empty_data
read_time_zone_file (some f) = read_data (read_times f)

-- The constructor that is given a file: `_data` is never reset, as `true` is always returned.
unfoldable pub construct_from_file : Option Bytes → Option Data
construct_from_file f = read_time_zone_file f
