-- ===== src/EventLoopThread.antt =====
-- netlib/net/EventLoopThread.cc: a thread that makes a loop, and the one that asks for it in
-- `startLoop`. The loop's address is the number `own`. A block under the lock is one step; `Thread::start`
-- returns once the thread runs. What the loop does is not modelled.
mod Started
mod Examples
use netlib.Base.{ℕ, ◌≡◌, ◌⊎◌, Bool, true, false, not, Option, none, some, ◌>>◌, assert}

-- Where the thread stands in `threadFunc`: before the lock, in `loop()`, or after it.
pub data Phase : Type 0 where
  unstarted preparing looping ended : Phase

-- Where `startLoop` stands: not called, about to test, in `_cond.wait`, notified there, or returned.
pub data Starter : Type 0 where
  outside testing asleep woken : Starter
  returned : ℕ → Starter

-- Where the owner of the object stands: it keeps it, waits for the thread in the destructor, or is
-- through with that.
pub data Owner : Type 0 where
  keeping joining through : Owner

pub record LoopThread : Type 0 where
  pub started : Bool
  pub phase : Phase
  pub starter : Starter
  pub exiting : Bool
  pub loop : Option ℕ
  pub told_to_quit : Bool
  pub owner : Owner

unfoldable pub construct : LoopThread
construct = record {
  started = false;
  phase = unstarted;
  starter = outside;
  exiting = false;
  loop = none;
  told_to_quit = false;
  owner = keeping;
}

-- `startLoop` up to the lock, once `_thread` is known not to have been started.
unfoldable pub begin : LoopThread → LoopThread
begin t = record t { started = true; phase = preparing; starter = testing }

unfoldable pub start_loop : LoopThread → Option LoopThread
start_loop t = assert (not t.started) >> some (begin t)

-- The test of its loop, with the lock held.
abbrev pub test : Option ℕ → Starter
test none = asleep
test (some p) = returned p

unfoldable pub test_loop : LoopThread → LoopThread
test_loop t = record t { starter = test t.loop }

abbrev pub notified : Starter → Starter
notified outside = outside
notified testing = testing
notified asleep = woken
notified woken = woken
notified (returned p) = returned p

-- The two locked blocks of `threadFunc`.
unfoldable pub publish : ℕ → LoopThread → LoopThread
publish own t = record t { phase = looping; loop = some own; starter = notified t.starter }

unfoldable pub finish : LoopThread → LoopThread
finish t = record t { phase = ended; loop = none }

-- The destructor, which reads `_loop` without the lock, up to `_thread.join()`.
abbrev pub leave : Option ℕ → LoopThread → LoopThread
leave none t = record t { exiting = true; owner = through }
leave (some loop) t = record t { exiting = true; told_to_quit = true; owner = joining }

unfoldable pub destroy : LoopThread → LoopThread
destroy t = leave t.loop t

unfoldable pub finish_destroy : LoopThread → LoopThread
finish_destroy t = record t { owner = through }

-- Where `startLoop` tests next: awakenings may come for no reason.
abbrev pub Tests : Starter → Type 0
Tests s = (s ≡ testing) ⊎ ((s ≡ woken) ⊎ (s ≡ asleep))

-- When the object may be destroyed: `startLoop` has returned, or was not called.
abbrev pub Idle : LoopThread → Type 0
Idle t = (t.started ≡ false) ⊎ ((p : ℕ) × (t.starter ≡ returned p))

pub data Step (own : ℕ) (t : LoopThread) : LoopThread → Type 0 where
  starts : (u : LoopThread) → t.owner ≡ keeping → start_loop t ≡ some u → Step own t u
  tests : Tests t.starter → Step own t (test_loop t)
  publishes : t.phase ≡ preparing → Step own t (publish own t)
  finishes : t.phase ≡ looping → Step own t (finish t)
  destroys : Idle t → t.owner ≡ keeping → Step own t (destroy t)
  joins : t.owner ≡ joining → t.phase ≡ ended → Step own t (finish_destroy t)

pub data Reach (own : ℕ) (t : LoopThread) : LoopThread → Type 0 where
  here : Reach own t t
  next : {u w : LoopThread} → Reach own t u → Step own u w → Reach own t w
