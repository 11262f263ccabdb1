-- ===== src/Thread.antt =====
-- netlib/base/Thread.h and Thread.cc, over the model of CountDownLatch: a thread is started, tells its
-- number and counts the latch down, and the starter goes on. The starter is thread 0 of the
-- latch. `pthread_create` and the thread's number are arguments; a failed assertion is `none`, and
-- a process that aborts is a state of its own.
mod Awaited
mod Examples
use netlib.Base.{
  ℕ, suc, ◌+◌, ◌<◌, ◌≡◌, Bool, true, false, not, ◌&&◌, ltb, if◌then◌else◌, pos, Option, none, some,
  ◌>>◌, assert, List, [], ◌∷◌, ◌++◌,
}
use netlib.CountDownLatch.{
  Latch, Waiter, outside, asleep, woken, through, construct as construct_latch, wait, count_down,
}
use netlib.LogStream.{convert}

-- Where the new thread stands in `runInThread`: not created, created, its number told, the latch
-- counted down, or ended; `aborted` where the function threw.
pub data Phase : Type 0 where
  absent created told counted ended aborted : Phase

-- Where `start` stands: not called, in `_latch.wait()`, or returned; `failed` where the process was
-- aborted because there was no thread.
pub data Starter : Type 0 where
  not_called waiting returned failed : Starter

pub record Thread : Type 0 where
  pub started : Bool
  pub joined : Bool
  pub tid : ℕ
  pub latch : Latch
  pub name : List ℕ
  pub phase : Phase
  pub starter : Starter

-- `setDefaultName`, with the number of threads made so far: "Thread%d".
unfoldable pub set_default_name : ℕ → List ℕ → List ℕ × ℕ
set_default_name num_created [] =
    (84 ∷ 104 ∷ 114 ∷ 101 ∷ 97 ∷ 100 ∷ convert false (num_created + 1), num_created + 1)
set_default_name num_created (c ∷ cs) = (c ∷ cs, num_created + 1)

unfoldable pub construct : ℕ → List ℕ → Thread × ℕ
construct num_created name =
    let (full, n) = set_default_name num_created name in
    (
      record {
        started = false;
        joined = false;
        tid = 0;
        latch = construct_latch (pos 1);
        name = full;
        phase = absent;
        starter = not_called;
      },
      n,
    )

-- `start` up to the latch, by whether `pthread_create` made a thread.
unfoldable pub start : Bool → Thread → Option Thread
start made t =
    assert (not t.started)
    >> some (
        if made
        then record t { started = true; phase = created; starter = waiting }
        else record t { starter = failed })

-- The starter tests the latch.
unfoldable pub test_latch : Thread → Thread
test_latch t = record t { latch = wait 0 t.latch }

-- The end of `start`.
unfoldable pub finish_start : Thread → Option Thread
finish_start t = assert (ltb 0 t.tid) >> some (record t { starter = returned })

-- `runInThread`: its number, the latch, and the function that ends or throws.
unfoldable pub tell_tid : ℕ → Thread → Thread
tell_tid tid t = record t { tid = tid; phase = told }

unfoldable pub count_latch : Thread → Thread
count_latch t = record t { latch = count_down t.latch; phase = counted }

unfoldable pub run_func : Bool → Thread → Thread
run_func throws t = record t { phase = if throws then aborted else ended }

unfoldable pub join : Thread → Option Thread
join t = assert t.started >> (assert (not t.joined) >> some (record t { joined = true }))

-- The destructor, which detaches a thread that was not joined.
unfoldable pub detaches : Thread → Bool
detaches t = t.started && not t.joined

-- Where the starter tests the latch next: awakenings may come for no reason.
abbrev pub Tests : Waiter → Type 0
Tests outside = Unit {0}
Tests asleep = Unit {0}
Tests woken = Unit {0}
Tests through = ⊥

-- The steps of the starter, which joins the thread once at most, and of the thread.
pub data Step (t : Thread) : Option Thread → Type 0 where
  starts : (made : Bool) → t.starter ≡ not_called → Step t (start made t)
  tests : t.starter ≡ waiting → Tests (t.latch.waiters 0) → Step t (some (test_latch t))
  finishes : t.starter ≡ waiting → t.latch.waiters 0 ≡ through → Step t (finish_start t)
  tells : (tid : ℕ) → 0 < tid → t.phase ≡ created → Step t (some (tell_tid tid t))
  counts : t.phase ≡ told → Step t (some (count_latch t))
  runs : (throws : Bool) → t.phase ≡ counted → Step t (some (run_func throws t))
  joins : t.starter ≡ returned → t.joined ≡ false → Step t (join t)

pub data Reach (t : Thread) : Option Thread → Type 0 where
  here : Reach t (some t)
  next : {u : Thread} {o : Option Thread} → Reach t (some u) → Step u o → Reach t o
