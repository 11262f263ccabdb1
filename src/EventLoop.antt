-- ===== src/EventLoop.antt =====
-- netlib/net/EventLoop.h and EventLoop.cc: the loop of one thread and what other threads ask of it.
-- Another thread's `queueInLoop` and `quit` are two steps, the change and then the `wakeUp`,
-- between which the loop may go on; `asleep` counts the threads between the two. A functor is known
-- by a number, and `queued` and `ran` record all that were ever queued and run. Timers are those of
-- TimerQueue and the poller that of Epoller; here `poll` returns when the wake descriptor's counter
-- is not 0, or at any time, for another event or the timeout.
pub mod Wakeup
pub mod Round
mod Dispatch
mod Handled
mod Owner
mod Owned
pub mod Examples
use netlib.Base.{
  ℕ, zero, suc, ◌+◌, Bool, true, false, not, ◌&&◌, ◌||◌, List, [], ◌∷◌, ◌++◌, if◌then◌else◌, ◌≡◌,
}

-- Where the loop's thread stands in `loop()`: in `poll`, dispatching events, before the swap in
-- `dpPendingFunctors`, running what it took there, or out of the loop.
pub data Phase : Type 0 where
  polling handling swapping stopped : Phase
  running : List ℕ → Phase

pub record Loop : Type 0 where
  pub phase : Phase
  pub looping : Bool
  pub quit : Bool
  pub pending : List ℕ
  pub calling_pending : Bool
  pub event_handling : Bool
  pub wake_count : ℕ
  pub asleep : ℕ
  pub queued : List ℕ
  pub ran : List ℕ

unfoldable pub construct : Loop
construct = record {
  phase = stopped;
  looping = false;
  quit = false;
  pending = [];
  calling_pending = false;
  event_handling = false;
  wake_count = 0;
  asleep = 0;
  queued = [];
  ran = [];
}

-- `loop()` up to the first `poll`.
unfoldable pub start : Loop → Loop
start l = record l { phase = polling; looping = true; quit = false }

pub wake_up : Loop → Loop
wake_up l = record l { wake_count = l.wake_count + 1 }

-- The locked block of `queueInLoop`.
pub push : ℕ → Loop → Loop
push f l = record l { pending = l.pending ++ f ∷ []; queued = l.queued ++ f ∷ [] }

-- `queueInLoop` in the loop's own thread: it wakes itself only while functors run.
pub queue_here : ℕ → Loop → Loop
unfolding push wake_up
queue_here f l = if l.calling_pending then wake_up (push f l) else push f l

-- `queueInLoop` in another thread, before its `wakeUp`.
pub queue_there : ℕ → Loop → Loop
unfolding push
queue_there f l = let m = push f l in record m { asleep = m.asleep + 1 }

pub quit_here : Loop → Loop
quit_here l = record l { quit = true }

pub quit_there : Loop → Loop
quit_there l = record l { quit = true; asleep = l.asleep + 1 }

-- `runInLoop`: at once in the loop's own thread (the result), queued otherwise.
pub run_in_loop : Bool → ℕ → Loop → Loop × List ℕ
run_in_loop true f l = (l, f ∷ [])
run_in_loop false f l = (queue_there f l, [])

-- The other thread's `wakeUp`.
pub wake_there : ℕ → Loop → Loop
unfolding wake_up
wake_there n l = record (wake_up l) { asleep = n }

pub poll_returns : Loop → Loop
poll_returns l = record l { phase = handling; event_handling = true }

-- The callback of the wake channel: reading the descriptor sets its counter to 0.
pub handle_read : Loop → Loop
handle_read l = record l { wake_count = 0 }

pub end_handling : Loop → Loop
end_handling l = record l { phase = swapping; event_handling = false; calling_pending = true }

pub swap_pending : Loop → Loop
swap_pending l = record l { phase = running l.pending; pending = [] }

pub run_first : ℕ → List ℕ → Loop → Loop
run_first f fs l = record l { phase = running fs; ran = l.ran ++ f ∷ [] }

-- The end of a round: the test of `while(!_quit)`.
pub end_round : Loop → Loop
end_round l = record l {
  calling_pending = false;
  looping = not l.quit;
  phase = if l.quit then stopped else polling;
}

-- What can happen next, in the loop's thread or in another.
pub data Step (l : Loop) : Loop → Type 0 where
  other_queues : (f : ℕ) → Step l (queue_there f l)
  other_quits : Step l (quit_there l)
  other_wakes : (n : ℕ) → l.asleep ≡ suc n → Step l (wake_there n l)
  polls : l.phase ≡ polling → Step l (poll_returns l)
  reads : l.phase ≡ handling → Step l (handle_read l)
  handler_queues : (f : ℕ) → l.phase ≡ handling → Step l (queue_here f l)
  handler_quits : l.phase ≡ handling → Step l (quit_here l)
  handled : l.phase ≡ handling → Step l (end_handling l)
  swaps : l.phase ≡ swapping → Step l (swap_pending l)
  runs : (f : ℕ) (fs : List ℕ) → l.phase ≡ running (f ∷ fs) → Step l (run_first f fs l)
  functor_queues : (f : ℕ) (fs : List ℕ) → l.phase ≡ running fs → Step l (queue_here f l)
  functor_quits : (fs : List ℕ) → l.phase ≡ running fs → Step l (quit_here l)
  rounds : l.phase ≡ running [] → Step l (end_round l)

pub data Reach (l : Loop) : Loop → Type 0 where
  here : Reach l l
  next : {m n : Loop} → Reach l m → Step m n → Reach l n
