-- ===== src/AsyncLogging/Examples.antt =====
-- netlib/base/AsyncLogging.cc: a round with a buffer that is full, for buffers of four bytes.
use netlib.Base.{refl, false, some, none, [], ◌∷◌, arith}
use netlib.AsyncLogging.{Logging, construct_writer}
use netlib.AsyncLogging.Order.{Holds, Ready}
use netlib.AsyncLogging.Service.{Service, waiting, takes, act}
use netlib.AsyncLogging.Life.{Serves, Continues, act-Continues}
use netlib.AsyncLogging.Lines.{Logger, Sound, Succeeds, collects, happens, happens-Logs}

abbrev one_full : Logging
one_full = record { current = some (4 ∷ 5 ∷ []); spare = none; buffers = (1 ∷ 2 ∷ 3 ∷ []) ∷ [] }

one_full-Holds : Holds (1 ∷ 2 ∷ 3 ∷ 4 ∷ 5 ∷ []) one_full
one_full-Holds = record {
  current = 4 ∷ 5 ∷ [];
  is_current = refl;
  spare_empty = refl;
  spare_used = λ _. omega arith;
  content = refl;
}

start-Ready : Ready construct_writer
unfolding construct_writer
start-Ready = record { buffer1 = refl; buffer2 = refl }

abbrev logger : Logger
logger = record { front = one_full; back = construct_writer; writing = false }

logger-Sound : Sound (1 ∷ 2 ∷ 3 ∷ 4 ∷ 5 ∷ []) logger
unfolding construct_writer
logger-Sound = record {
  held = 1 ∷ 2 ∷ 3 ∷ 4 ∷ 5 ∷ [];
  holds = one_full-Holds;
  stands = (start-Ready, refl);
  all = refl;
}

happens-Logs_example : Succeeds (1 ∷ 2 ∷ 3 ∷ 4 ∷ 5 ∷ []) (happens 4 collects logger)
happens-Logs_example = happens-Logs 4 collects (1 ∷ 2 ∷ 3 ∷ 4 ∷ 5 ∷ []) logger logger-Sound refl

-- The logger is asked to stop before the thread takes the buffers.
abbrev stopping : Service
stopping = record { running = false; joined = false; at = waiting; logger = logger; flushed = [] }

stopping-Serves : Serves (1 ∷ 2 ∷ 3 ∷ 4 ∷ 5 ∷ []) stopping
unfolding construct_writer
stopping-Serves = record {
  sound = logger-Sound;
  settled = (refl, refl);
  stopped = λ _. refl;
  over = λ j. absurd (cc j);
}

act-Continues_example : Continues (1 ∷ 2 ∷ 3 ∷ 4 ∷ 5 ∷ []) (act 4 takes stopping)
act-Continues_example = act-Continues 4 takes (1 ∷ 2 ∷ 3 ∷ 4 ∷ 5 ∷ []) stopping stopping-Serves refl
