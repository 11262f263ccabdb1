-- ===== src/CountDownLatch.antt =====
-- netlib/base/CountDownLatch.cc: a count and the threads that wait for it, over the model of a
-- condition variable: `_cond.wait` gives up the lock and sleeps, until it is notified or for no
-- reason, and then takes the lock again. A block under the lock is one step.
pub mod Released
mod Examples
use netlib.Base.{ℕ, ◌+◌, ◌≡◌, Bool, false, ◌==◌, if◌then◌else◌, ℤ, pos, negsuc, ◌-ℤ◌, ltb_ℤ, set_at}

-- Where a thread stands in `wait`: not called, in `_cond.wait`, notified there, or returned.
pub data Waiter : Type 0 where
  outside asleep woken through : Waiter

pub record Latch : Type 0 where
  pub count : ℤ
  pub waiters : ℕ → Waiter

unfoldable pub construct : ℤ → Latch
construct c = record { count = c; waiters = λ _. outside }

-- The test of the loop in `wait`, with the lock held.
abbrev pub test : ℤ → Waiter
test c = if ltb_ℤ (pos 0) c then asleep else through

unfoldable pub wait : ℕ → Latch → Latch
wait i l = record l { waiters = set_at i (test l.count) l.waiters }

abbrev pub notified : Waiter → Waiter
notified outside = outside
notified asleep = woken
notified woken = woken
notified through = through

unfoldable pub notify_all : Latch → Latch
notify_all l = record l { waiters = λ i. notified (l.waiters i) }

abbrev pub is_zero : ℤ → Bool
is_zero (pos n) = n == 0
is_zero (negsuc n) = false

unfoldable pub count_down : Latch → Latch
count_down l =
    let m = record l { count = l.count -ℤ pos 1 } in if is_zero m.count then notify_all m else m

-- From a latch of `c` on, with how often `count_down` was called. A thread tests when it calls
-- `wait`, when it was notified, or when it awakes for no reason.
pub data Reach (c : ℤ) : ℕ → Latch → Type 0 where
  made : Reach c 0 (construct c)
  calls : {n : ℕ} {l : Latch} (i : ℕ) → Reach c n l → l.waiters i ≡ outside → Reach c n (wait i l)
  awakes : {n : ℕ} {l : Latch} (i : ℕ) → Reach c n l → l.waiters i ≡ woken → Reach c n (wait i l)
  stirs : {n : ℕ} {l : Latch} (i : ℕ) → Reach c n l → l.waiters i ≡ asleep → Reach c n (wait i l)
  counts : {n : ℕ} {l : Latch} → Reach c n l → Reach c (n + 1) (count_down l)
