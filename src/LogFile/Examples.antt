-- ===== src/LogFile/Examples.antt =====
-- netlib/base/LogFile.cc: a log on streams that take three bytes at a time.
use netlib.Base.{
  ℕ, refl, sym, ap, min, Option, none, some, List, [], ◌∷◌, ◌++◌, length, take, ◌>>=◌, arith,
}
use netlib.FileUtil.{Stdio}
use netlib.FileUtil.Loop.{IsStdio}
use netlib.LogFile.{Host, LogFile, construct}
use netlib.LogFile.Roll.{Works, Sound}
use netlib.LogFile.Whole.{Event, appends, flushes, rolls, messages, run, Whole, construct-Whole}

abbrev stdio : Stdio (List ℕ)
stdio = record {
  fopen = λ name. some [];
  fwrite_unlocked = λ fp bs. (fp ++ take (min 3 (length bs)) bs, min 3 (length bs));
  ferror = λ fp. 0;
  fflush = λ fp. fp;
}

abbrev all_bytes : List ℕ → List ℕ
all_bytes fp = fp

abbrev bytes_of : Option (List ℕ) → List ℕ
bytes_of none = []
bytes_of (some bs) = bs

stdio-IsStdio : IsStdio stdio all_bytes
stdio-IsStdio = record {
  opened = λ name fp e. ap bytes_of (sym e);
  counted = λ fp bs. omega arith;
  stored = λ fp bs. refl;
  failed = λ fp bs some_left none_taken e. absurd (omega (arith, some_left, none_taken));
  flushed = λ fp. refl;
}

stdio-Works : Works stdio
stdio-Works = record { opens = λ name. ([], refl); error_free = λ fp. refl }

abbrev host : Host
host = record { timebuf = λ t. 46 ∷ t ∷ 46 ∷ []; hostname = 104 ∷ []; pidbuf = 46 ∷ 55 ∷ [] }

abbrev log : LogFile (List ℕ)
log = record {
  basename = 97 ∷ [];
  roll_size = 4;
  flush_interval = 3;
  check_every_n = 2;
  count = 1;
  last_roll = 1000;
  last_flush = 1000;
  start_of_period = 0;
  file = some (record { fp = 1 ∷ []; written_bytes = 1 });
}

log-Sound : Sound stdio all_bytes log
log-Sound = record {
  output = record { fp = 1 ∷ []; written_bytes = 1 };
  is_open = refl;
  counted = refl;
  in_period = refl;
  flushed_since = omega arith;
  below = λ p. omega arith;
}

abbrev calls : List Event
calls = appends 5 5 (1 ∷ 2 ∷ 3 ∷ 4 ∷ 5 ∷ []) ∷ flushes ∷ appends 7 7 (6 ∷ []) ∷ rolls 90000 ∷ []

construct-Whole_example :
    Whole stdio-IsStdio stdio-Works host
      (messages calls)
      4
      (construct stdio host (97 ∷ []) 4 3 2 4 >>= (λ (closed, l). run stdio host calls l))
construct-Whole_example =
    construct-Whole stdio-IsStdio stdio-Works host (97 ∷ []) 4 3 2 4 calls refl (omega arith)
