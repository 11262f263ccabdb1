-- ===== src/TimerQueue/Examples.antt =====
-- netlib/net/TimerQueue.cc: the theorems at small queues.
use netlib.Base.{
  All, ◌+◌, ◌≤◌, ◌<◌, ◌≡◌, refl, inl, true, false, List, [], ◌∷◌, ◌++◌, some, if◌then◌else◌, arith,
}
use netlib.TimerQueue.{
  Timer, Key, TimerQueue, key, same_key, mem_key, entry_lt, Call, adds, cancels, call, run_all,
  handle_read, cancel_in_loop, add_timer_in_loop, insert, construct, reset_timer_fd,
  how_much_time_from_now, is_earliest, insert_entry, insert_key,
}
use netlib.TimerQueue.Order.{count_key, keys}
use netlib.TimerQueue.Inv.{IsValid, cancel_in_loop-IsValid}
use netlib.TimerQueue.Reset.{returning}
use netlib.TimerQueue.Firing.{AllNew, firing, handle_read-Fires}
use netlib.TimerQueue.Wakeup.{Armed, read_clock, call-Armed}

-- A timer that repeats every 50, one that fires once, and a late one.
abbrev ticker : Timer
ticker = record {
  address = 3;
  sequence = 1;
  expiration = 100;
  repeat = true;
  next = λ now. now + 50;
}

abbrev single : Timer
single = record { address = 1; sequence = 2; expiration = 120; repeat = false; next = λ now. now }

abbrev late : Timer
late = record { address = 2; sequence = 3; expiration = 300; repeat = false; next = λ now. now }

abbrev queue : TimerQueue
queue = record {
  timers = ticker ∷ single ∷ late ∷ [];
  active_timers = key late ∷ key ticker ∷ key single ∷ [];
  canceling_timers = [];
  calling_expired_timer = false;
  timer_fd = some 100;
}

queue-IsValid : IsValid queue
unfolding entry_lt
queue-IsValid = record {
  sorted = ((refl, (refl, tt)), ((refl, tt), (tt, tt)));
  distinct = omega arith;
  sizes = refl;
  synced = λ k. omega arith;
}

cancel_in_loop-IsValid_example :
    (r : TimerQueue) × (cancel_in_loop (key single) queue ≡ some r)
    × IsValid r
    × ((j : Key)
        → count_key j r.active_timers
          ≡ (if same_key (key single) j then 0 else count_key j queue.active_timers))
    × ((j : Key)
        → count_key j (keys r.timers)
          ≡ (if same_key (key single) j then 0 else count_key j (keys queue.timers)))
    × (mem_key (key single) queue.active_timers ≡ false
        → queue.calling_expired_timer ≡ true
        → mem_key (key single) r.canceling_timers ≡ true)
cancel_in_loop-IsValid_example = cancel_in_loop-IsValid (key single) queue queue-IsValid

abbrev early : Timer
early = record { address = 9; sequence = 4; expiration = 60; repeat = false; next = λ now. now }

call-Armed_example :
    (r : TimerQueue) × (call (adds 45 early) queue ≡ some r)
    × IsValid r
    × Armed (read_clock 40 (adds 45 early)) r.timer_fd r.timers
call-Armed_example =
    call-Armed 40 (adds 45 early) queue queue-IsValid (inl (omega arith)) (omega arith, omega arith)

-- A timer that is due within 100 microseconds fires 100 microseconds from now.
clamp :
    add_timer_in_loop 45 early construct
    ≡ some (record {
      timers = early ∷ [];
      active_timers = key early ∷ [];
      canceling_timers = [];
      calling_expired_timer = false;
      timer_fd = some 145;
    })
unfolding add_timer_in_loop insert construct reset_timer_fd how_much_time_from_now is_earliest
    insert_entry insert_key mem_key
clamp = refl

-- Every callback cancels its own timer.
abbrev cancel_self : Timer → List Call
cancel_self t = cancels (key t) ∷ []

cancel_self-AllNew : (expired ts : List Timer) (q : TimerQueue) → AllNew cancel_self expired ts q
cancel_self-AllNew expired [] q = tt
cancel_self-AllNew expired (t ∷ ts) q = ((tt, λ r e. tt), λ r e. cancel_self-AllNew expired ts r)

handle_read-Fires_example :
    (expired : List Timer) × (taken s r : TimerQueue) × (handle_read cancel_self 150 155 queue
      ≡ some r)
    × (run_all cancel_self expired (firing taken) ≡ some s)
    × (queue.timers ≡ expired ++ taken.timers)
    × All (λ (t : Timer). t.expiration ≤ 150) expired
    × All (λ (t : Timer). 150 < t.expiration) taken.timers
    × IsValid r
    × Armed 155 r.timer_fd r.timers
    × ((k : Key)
        → count_key k (keys r.timers)
          ≡ count_key k (returning s.canceling_timers expired) + count_key k (keys s.timers))
handle_read-Fires_example =
    handle_read-Fires cancel_self 150 155 queue queue-IsValid (omega arith) (omega arith)
      (λ expired r e. cancel_self-AllNew expired expired (firing r))
