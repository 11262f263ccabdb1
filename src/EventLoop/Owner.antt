-- ===== src/EventLoop/Owner.antt =====
-- netlib/net/EventLoop.cc: which loop a thread has, `t_loopInThisThread`, and which thread a loop belongs
-- to, `_tid`. Threads and loops are numbers; a fatal log statement, which aborts, is `none`.
use netlib.Base.{ℕ, ◌≡◌, Bool, false, ◌==◌, if◌then◌else◌, Option, none, some, set_at}
use netlib.TimerQueue.{Key, Call, adds, cancels, construct_timer}

pub record Process : Type 0 where
  pub loop_in_thread : ℕ → Option ℕ
  pub owner : ℕ → Option ℕ

abbrev pub no_loops : Process
no_loops = record { loop_in_thread = λ t. none; owner = λ l. none }

abbrev pub claim_thread : Option ℕ → ℕ → ℕ → Process → Option Process
claim_thread (some other) t l p = none
claim_thread none t l p = some (record {
  loop_in_thread = set_at t (some l) p.loop_in_thread;
  owner = set_at l (some t) p.owner;
})

-- The constructor of the loop `l` in the thread `t`, and the destructor there.
unfoldable pub construct : ℕ → ℕ → Process → Option Process
construct t l p = claim_thread (p.loop_in_thread t) t l p

unfoldable pub destroy : ℕ → ℕ → Process → Process
destroy t l p = record {
  loop_in_thread = set_at t none p.loop_in_thread;
  owner = set_at l none p.owner;
}

abbrev pub is_thread : ℕ → Option ℕ → Bool
is_thread t none = false
is_thread t (some tid) = t == tid

unfoldable pub is_in_loop_thread : ℕ → ℕ → Process → Bool
is_in_loop_thread t l p = is_thread t (p.owner l)

unfoldable pub assert_in_loop_thread : ℕ → ℕ → Process → Option Process
assert_in_loop_thread t l p = if is_in_loop_thread t l p then some p else none

-- `hasChnnel`, which calls `abortNotInLoopThread`.
unfoldable pub has_chnnel : ℕ → ℕ → Process → Option Bool
has_chnnel t l p = none

-- What `runAt`, `runEvery` and `cancle` ask of the timers; the sum of a time and seconds in
-- floating point is an argument, and 0.0 is `zero`. A timer is added in the loop's thread, by the
-- clock of that moment.
module _ {Double : Type 0} (positive : Double → Bool) (add_time : ℕ → Double → ℕ)
    (zero : Double) where
  unfoldable pub run_at : ℕ → ℕ → ℕ → (ℕ → Call) × ℕ
  run_at index address when =
      let (t, next) = construct_timer positive add_time index address when zero in
      (λ clock. adds clock t, next)

  unfoldable pub run_after : ℕ → ℕ → ℕ → Double → (ℕ → Call) × ℕ
  run_after index address now delay = run_at index address (add_time now delay)

  unfoldable pub run_every : ℕ → ℕ → ℕ → Double → (ℕ → Call) × ℕ
  run_every index address now interval =
      let (t, next) =
        construct_timer positive add_time index address (add_time now interval) interval in
      (λ clock. adds clock t, next)

unfoldable pub cancle : Key → Call
cancle timer_id = cancels timer_id

-- Loops are made in any thread, at addresses that no loop has, and destroyed in their own.
pub data Reach : Option Process → Type 0 where
  here : Reach (some no_loops)
  constructs : {p : Process} (t l : ℕ) → Reach (some p) → p.owner l ≡ none → Reach (construct t l p)
  destroys :
      {p : Process} (t l : ℕ) → Reach (some p) → p.owner l ≡ some t → Reach (some (destroy t l p))
