-- ===== src/AsyncLogging/Service.antt =====
-- netlib/base/AsyncLogging.cc: a logger from `start` to `stop`. The thread tests `_running`, waits and takes
-- the buffers, and writes and flushes them, in three steps; `start` returns once the thread has
-- counted the latch down. `flushed` is what was written when `output.flush()` was called last.
use netlib.Base.{
  ℕ, ◌≤◌, ◌<◌, ◌≡◌, ◌≢◌, Bool, true, false, not, if◌then◌else◌, Option, some, ◌>>=◌, ◌>>◌, assert,
  [], length,
}
use netlib.AsyncLogging.{Bytes, construct, construct_writer}
use netlib.AsyncLogging.Lines.{Logger, appends, collects, writes, happens}

-- Where the thread stands: not started, before the test of `_running`, before the locked block, behind
-- it, or ended.
pub data Where : Type 0 where
  unborn testing waiting writing ended : Where

pub record Service : Type 0 where
  pub running : Bool
  pub joined : Bool
  pub at : Where
  pub logger : Logger
  pub flushed : Bytes

unfoldable pub construct_service : Service
construct_service = record {
  running = false;
  joined = false;
  at = unborn;
  logger = record { front = construct; back = construct_writer; writing = false };
  flushed = [];
}

abbrev pub is_unborn : Where → Bool
is_unborn unborn = true
is_unborn testing = false
is_unborn waiting = false
is_unborn writing = false
is_unborn ended = false

-- `start`; the thread that it starts asserts `_running`.
unfoldable pub start : Service → Option Service
start s =
    let t = record s { running = true } in
    assert (is_unborn t.at) >> (assert t.running >> some (record t { at = testing }))

-- The test of the loop, and the flush behind the loop.
unfoldable pub test_running : Service → Service
test_running s =
    if s.running
    then record s { at = waiting }
    else record s { at = ended; flushed = s.logger.back.written }

unfoldable pub take_buffers : ℕ → Service → Option Service
take_buffers size s =
    happens size collects s.logger >>= (λ l. some (record s { logger = l; at = writing }))

unfoldable pub write_buffers : ℕ → Service → Option Service
write_buffers size s =
    happens size writes s.logger
    >>= (λ l. some (record s { logger = l; at = testing; flushed = l.back.written }))

unfoldable pub append_line : ℕ → Bytes → Service → Option Service
append_line size msg s =
    happens size (appends msg) s.logger >>= (λ l. some (record s { logger = l }))

-- `stop`, up to `_thread.join()`, and behind it.
unfoldable pub stop : Service → Service
stop s = record s { running = false }

unfoldable pub finish_stop : Service → Option Service
finish_stop s = assert (not s.joined) >> some (record s { joined = true })

-- The destructor, up to where `stop` joins.
unfoldable pub destroy : Service → Service
destroy s = if s.running then stop s else s

-- What the threads do next.
pub data Act : Type 0 where
  starts tests takes writes_out stops destroys joins : Act
  logs : Bytes → Act

unfoldable pub act : ℕ → Act → Service → Option Service
act size starts s = start s
act size tests s = some (test_running s)
act size takes s = take_buffers size s
act size stops s = some (stop s)
act size destroys s = some (destroy s)
act size joins s = finish_stop s
act size (logs msg) s = append_line size msg s
act size writes_out s = write_buffers size s

abbrev pub logged : Act → Bytes
logged starts = []
logged tests = []
logged takes = []
logged stops = []
logged destroys = []
logged joins = []
logged (logs msg) = msg
logged writes_out = []

-- A logger is started and stopped once; lines are shorter than a buffer, and a round that writes has
-- at most 25 buffers.
abbrev pub CanAct : ℕ → Act → Service → Type 0
CanAct size starts s = s.at ≡ unborn
CanAct size tests s = s.at ≡ testing
CanAct size takes s = s.at ≡ waiting
CanAct size stops s = s.at ≢ unborn
CanAct size destroys s = Unit {0}
CanAct size joins s = (s.at ≡ ended) × (s.joined ≡ false)
CanAct size (logs msg) s = length msg < size
CanAct size writes_out s = (s.at ≡ writing) × (length s.logger.back.to_write ≤ 25)
