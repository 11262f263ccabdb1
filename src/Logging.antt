-- ===== src/Logging.antt =====
-- netlib/base/Logging.h and Logging.cc, tid of CurrentThread.h: one log statement, from the test of its
-- level to the text that is given to `g_outPut`. The clock and the thread's number are arguments, as
-- are `gmtime_r` and `std::lower_bound` for the zone; `none` is a failed assertion or an index out
-- of range. The zone `g_logTimeZone` is `none` while it is not valid. Numbers as `snprintf` prints them
-- are those of `convert`.
pub mod Stamp
mod Line
mod Names
mod Examples
use netlib.Base.{
  ℕ, zero, suc, ◌+◌, ◌-◌, ◌/◌, ◌%◌, Bool, true, false, not, ◌==◌, leb, if◌then◌else◌, ℤ, pos,
  negsuc, ◌+ℤ◌, Option, none, some, ◌>>=◌, ◌>>◌, assert, List, [], ◌∷◌, ◌++◌, length, take, drop,
  replicate,
}
use netlib.LogStream.{convert, Item, integer, character, string, null_string, insert}
use netlib.TimeZone.{Tm, Data, LowerBound, to_local_time}

abbrev pub Bytes : Type 0
Bytes = List ℕ

pub data Level : Type 0 where
  trace debug info warn error fatal : Level

abbrev pub rank : Level → ℕ
rank trace = 0
rank debug = 1
rank info = 2
rank warn = 3
rank error = 4
rank fatal = 5

-- `LogLevelName`, six characters each.
abbrev pub level_name : Level → Bytes
level_name trace = 84 ∷ 82 ∷ 65 ∷ 67 ∷ 69 ∷ 32 ∷ []
level_name debug = 68 ∷ 69 ∷ 66 ∷ 85 ∷ 71 ∷ 32 ∷ []
level_name info = 73 ∷ 78 ∷ 70 ∷ 79 ∷ 32 ∷ 32 ∷ []
level_name warn = 87 ∷ 65 ∷ 82 ∷ 78 ∷ 32 ∷ 32 ∷ []
level_name error = 69 ∷ 82 ∷ 82 ∷ 79 ∷ 82 ∷ 32 ∷ []
level_name fatal = 70 ∷ 65 ∷ 84 ∷ 65 ∷ 76 ∷ 32 ∷ []

-- `initLogLevel`, by whether the two variables are set.
abbrev pub init_log_level : Bool → Bool → Level
init_log_level trace_set debug_set = if trace_set then trace else if debug_set then debug else info

-- `strrchr(s, '/')`, as an index.
abbrev pub last_slash : Bytes → Option ℕ
last_slash [] = none
last_slash (c ∷ cs) = elim (last_slash cs) [
  | none ↦ if c == 47 then some 0 else none
  | some i ↦ some (suc i)
]

-- `_data` to the end of its array, and `_size`.
pub record SourceFile : Type 0 where
  pub text : Bytes
  pub size : ℕ

abbrev pub array_from : Bytes → Option ℕ → SourceFile
array_from arr none = record { text = arr; size = length arr }
array_from arr (some i) = record { text = drop (i + 1) arr; size = length arr - (i + 1) }

-- The constructor for an array, of which the 0 at its end is left out.
unfoldable pub from_array : Bytes → SourceFile
from_array arr = array_from arr (last_slash arr)

abbrev pub name_from : Bytes → Option ℕ → Bytes
name_from filename none = filename
name_from filename (some i) = drop (i + 1) filename

-- The constructor for a pointer.
unfoldable pub from_name : Bytes → SourceFile
from_name filename =
    let text = name_from filename (last_slash filename) in
    record { text = text; size = length text }

-- A width with a character to fill it.
abbrev pub pad : ℕ → ℕ → Bytes → Bytes
pad c width cs = replicate (width - length cs) c ++ cs

-- "%0wd", and "%wd" where the number may be negative.
unfoldable pub zeros : ℕ → ℕ → Bytes
zeros width n = pad 48 width (convert false n)

abbrev pub decimal : ℤ → Bytes
decimal (pos n) = convert false n
decimal (negsuc n) = convert true (suc n)

-- "%4d%02d%02d %02d:%02d:%02d"
unfoldable pub calendar_text : Tm → Bytes
calendar_text t =
    pad 32 4 (decimal (t.year +ℤ pos 1900))
    ++ (zeros 2 (t.mon + 1)
        ++ (zeros 2 t.mday
            ++ (32 ∷ zeros 2 t.hour ++ (58 ∷ zeros 2 t.min ++ (58 ∷ zeros 2 t.sec)))))

-- ".%06d " where there is a zone, ".%06dZ " where there is none.
abbrev pub micro_text : {A : Type 0} → Option A → ℕ → Bytes
micro_text none us = 46 ∷ zeros 6 us ++ 90 ∷ 32 ∷ []
micro_text (some d) us = 46 ∷ zeros 6 us ++ 32 ∷ []

abbrev pub micro_length : {A : Type 0} → Option A → ℕ
micro_length none = 9
micro_length (some d) = 8

-- `t_lastSecond` and `t_time` of a thread.
pub record Cache : Type 0 where
  pub last_second : ℕ
  pub time : Bytes

unfoldable pub construct_cache : Cache
construct_cache = record { last_second = 0; time = [] }

-- `operator<<` for a `T`, whose length is asserted.
abbrev pub counted : Bytes → ℕ → Option Item
counted cs n = assert (length cs == n) >> some (string cs)

abbrev pub calendar : LowerBound → (ℤ → Tm) → Option Data → ℕ → Option Tm
calendar lower_bound gmtime none seconds = some (gmtime (pos seconds))
calendar lower_bound gmtime (some d) seconds = to_local_time lower_bound gmtime d (pos seconds)

module _ (lower_bound : LowerBound) (gmtime : ℤ → Tm) (zone : Option Data) where
  -- The text of a second, of 17 characters.
  unfoldable pub second_text : ℕ → Option Bytes
  second_text seconds = do
    t ← calendar lower_bound gmtime zone seconds
    assert (length (calendar_text t) == 17)
    some (calendar_text t)

  unfoldable pub update_cache : ℕ → Cache → Option Cache
  update_cache seconds c =
      if not (seconds == c.last_second)
      then second_text seconds >>= (λ text. some (record { last_second = seconds; time = text }))
      else some c

  -- `formatTime`: the cache, and what is put into the stream.
  unfoldable pub format_time : ℕ → Cache → Option (Cache × List Item)
  format_time micros c = do
    d ← update_cache (micros / 1000000) c
    let us = micro_text zone (micros % 1000000)
    assert (length us == micro_length zone)
    second ← counted d.time 17
    fraction ← counted us (micro_length zone)
    some (d, second ∷ fraction ∷ [])

-- "%5d"
abbrev pub tid_string : ℕ → Bytes
tid_string tid = pad 32 5 (convert false tid)

-- `SourceFile`'s `operator<<`
abbrev pub base_item : SourceFile → Item
base_item file = string (take file.size file.text)

-- " - ", ":" and "\n" around the file and the line.
unfoldable pub finish : SourceFile → ℕ → List Item
finish file line =
    string (32 ∷ 45 ∷ 32 ∷ [])
    ∷ base_item file
    ∷ string (58 ∷ [])
    ∷ integer false line
    ∷ string (10 ∷ [])
    ∷ []

-- The statements, by their macros.
pub data Macro : Type 0 where
  log_trace log_debug log_info log_warn log_error log_fatal log_syserr log_sysfatal : Macro

-- The test of the level; `none` makes no Logger. Then its level, and whether it is given `__func__`.
abbrev pub when : Bool → Level × Bool → Option (Level × Bool)
when b r = if b then some r else none

unfoldable pub logger_of : Level → Macro → Option (Level × Bool)
logger_of g_log_level log_trace = when (leb (rank g_log_level) (rank trace)) (trace, true)
logger_of g_log_level log_debug = when (leb (rank g_log_level) (rank debug)) (debug, true)
logger_of g_log_level log_info = when (leb (rank g_log_level) (rank info)) (info, false)
logger_of g_log_level log_warn = some (warn, false)
logger_of g_log_level log_error = some (error, false)
logger_of g_log_level log_fatal = some (fatal, false)
logger_of g_log_level log_syserr = some (error, false)
logger_of g_log_level log_sysfatal = some (fatal, false)

-- The constructor with `__func__` puts it and a space into the stream.
abbrev pub func_items : Bool → Bytes → List Item
func_items with_func func = if with_func then string func ∷ character 32 ∷ [] else []

pub data Effect : Type 0 where
  outputs : Bytes → Effect
  flushes aborts : Effect

-- `cSmallBuffer` and `cLargeBuffer`
abbrev pub small_buffer : ℕ
small_buffer = 4000

abbrev pub large_buffer : ℕ
large_buffer = 4000000

unfoldable pub insert_all : List Item → Bytes → Option Bytes
insert_all [] b = some b
insert_all (i ∷ is) b = insert small_buffer i b >>= insert_all is

-- The end of `~Logger`.
abbrev pub ends : Level → List Effect
ends trace = []
ends debug = []
ends info = []
ends warn = []
ends error = []
ends fatal = flushes ∷ aborts ∷ []

-- What differs between threads and moments.
pub record Moment : Type 0 where
  pub micros : ℕ
  pub tid : ℕ

pub record Place : Type 0 where
  pub file : SourceFile
  pub line : ℕ
  pub func : Bytes

module _ (lower_bound : LowerBound) (gmtime : ℤ → Tm) (zone : Option Data) where
  -- A Logger from its constructor to its destructor, with the items of the statement between.
  unfoldable pub logger :
      Moment → Place → Level × Bool → List Item → Cache → Option (Cache × List Effect)
  logger m p (level, with_func) body c = do
    (d, stamp) ← format_time lower_bound gmtime zone m.micros c
    name ← counted (level_name level) 6
    text ←
        insert_all
          (stamp
            ++ (string (tid_string m.tid) ∷ name ∷ func_items with_func p.func
                ++ (body ++ finish p.file p.line)))
          []
    some (d, outputs text ∷ ends level)

  abbrev pub log_by :
      Moment → Place → List Item → Cache → Option (Level × Bool) → Option (Cache × List Effect)
  log_by m p body c none = some (c, [])
  log_by m p body c (some r) = logger m p r body c

  -- A statement.
  unfoldable pub log :
      Level → Moment → Place → Macro → List Item → Cache → Option (Cache × List Effect)
  log g_log_level m p macro body c = log_by m p body c (logger_of g_log_level macro)
