-- ===== src/TimerQueue.antt =====
-- netlib/net/TimerQueue.h, TimerQueue.cc, Timer.h and Timer.cc: the timers of a loop. The set of
-- (time, pointer) entries is the list of its timers in the set's order: an entry's time is its
-- timer's expiration, which changes (`restart`) only outside the set. Times are microseconds since
-- the epoch, none before it. A method returns the new queue; `none` is a failed assertion. What a
-- timer's callback does to the queue is a list of calls, a parameter.
pub mod Order
pub mod Inv
pub mod Expiry
pub mod Reset
pub mod Wakeup
pub mod Firing
pub mod Examples
use netlib.Base.{
  ℕ, suc, ◌+◌, ◌-◌, Bool, true, false, not, ◌&&◌, ◌||◌, List, [], ◌∷◌, ◌++◌, Option, none, some,
  length, ltb, leb, ◌==◌, if◌then◌else◌, ◌>>=◌, ◌>>◌, assert,
}

-- `next now` stands for `addTime(now, _interval)`, whose arithmetic on `double` is not modelled.
pub record Timer : Type 0 where
  pub address : ℕ
  pub sequence : ℕ
  pub expiration : ℕ
  pub repeat : Bool
  pub next : ℕ → ℕ

-- `Timer::Timer`, over the floating-point numbers, with `INDEX` before and after.
pub construct_timer {ℓ} :
    {Double : Type ℓ} → (Double → Bool) → (ℕ → Double → ℕ) → ℕ → ℕ → ℕ → Double → Timer × ℕ
construct_timer positive add_time index address when interval = (
  record {
    address = address;
    sequence = index + 1;
    expiration = when;
    repeat = positive interval;
    next = λ now. add_time now interval;
  },
  index + 1,
)

-- `Time::invaild()`
abbrev pub invalid_time : ℕ
invalid_time = 0

pub restart : ℕ → Timer → Timer
restart now t = record t { expiration = if t.repeat then t.next now else invalid_time }

-- `ActiveTimer`: a pointer with the sequence number that tells its timers apart.
pub record Key : Type 0 where
  pub address : ℕ
  pub sequence : ℕ

abbrev pub key : Timer → Key
key t = record { address = t.address; sequence = t.sequence }

abbrev pub same_key : Key → Key → Bool
same_key a b = (a.address == b.address) && (a.sequence == b.sequence)

pub record TimerQueue : Type 0 where
  pub timers : List Timer
  pub active_timers : List Key
  pub canceling_timers : List Key
  pub calling_expired_timer : Bool
  pub timer_fd : Option ℕ  -- when the descriptor fires, `none` while it is not set

unfoldable pub construct : TimerQueue
construct = record {
  timers = [];
  active_timers = [];
  canceling_timers = [];
  calling_expired_timer = false;
  timer_fd = none;
}

-- `std::pair<Time, Timer*>`'s `<`
unfoldable pub entry_lt : Timer → Timer → Bool
entry_lt a b =
    ltb a.expiration b.expiration || ((a.expiration == b.expiration) && ltb a.address b.address)

-- `std::set::insert`
pub insert_entry : Timer → List Timer → List Timer
insert_entry t [] = t ∷ []
insert_entry t (u ∷ us) =
    if entry_lt t u then t ∷ (u ∷ us) else (if entry_lt u t then u ∷ insert_entry t us else u ∷ us)

pub mem_key : Key → List Key → Bool
mem_key k [] = false
mem_key k (j ∷ js) = same_key j k || mem_key k js

pub insert_key : Key → List Key → List Key
insert_key k ks = if mem_key k ks then ks else k ∷ ks

-- `std::set::erase` by key, and how many elements it removed.
pub erase_key : Key → List Key → List Key × ℕ
erase_key k [] = ([], 0)
erase_key k (j ∷ js) =
    let (rest, n) = erase_key k js in if same_key j k then (js, 1) else (j ∷ rest, n)

-- `_timers.erase(Entry(timer->expiration(), timer))` for a pointer to one of the timers.
pub erase_timer : ℕ → List Timer → List Timer × ℕ
erase_timer address [] = ([], 0)
erase_timer address (t ∷ ts) =
    let (rest, n) = erase_timer address ts in
    if t.address == address then (ts, 1) else (t ∷ rest, n)

abbrev pub sizes_agree : TimerQueue → Bool
sizes_agree q = length q.timers == length q.active_timers

-- `it == _timers.end() || when < it->first`
pub is_earliest : ℕ → List Timer → Bool
is_earliest when [] = true
is_earliest when (t ∷ ts) = ltb when t.expiration

pub insert : Timer → TimerQueue → Option (Bool × TimerQueue)
insert t q = do
  assert (sizes_agree q)
  some (
    is_earliest t.expiration q.timers,
    record q {
      timers = insert_entry t q.timers;
      active_timers = insert_key (key t) q.active_timers;
    },
  )

-- `howMuchTimeFromNow` in microseconds, with what its `Time::now()` reads.
unfoldable pub how_much_time_from_now : ℕ → ℕ → ℕ
how_much_time_from_now now when = if ltb when (now + 100) then 100 else when - now

-- `resetTimerFd`: a timer of timerfd that is set to 0 is disarmed, any other fires that much later.
unfoldable pub reset_timer_fd : ℕ → ℕ → Option ℕ
reset_timer_fd now when =
    let delay = how_much_time_from_now now when in if delay == 0 then none else some (now + delay)

-- `now` is what the clock says when the descriptor is set.
pub add_timer_in_loop : ℕ → Timer → TimerQueue → Option TimerQueue
add_timer_in_loop now t q = do
  (earliest, r) ← insert t q
  some (if earliest then record r { timer_fd = reset_timer_fd now t.expiration } else r)

-- The branch of `cancleInLoop` that has found the timer.
pub erase_active : Key → TimerQueue → Option TimerQueue
erase_active k q =
    let (timers, n) = erase_timer k.address q.timers in
    let (active, _) = erase_key k q.active_timers in
    do assert (n == 1); some (record q { timers = timers; active_timers = active })

pub cancel_in_loop : Key → TimerQueue → Option TimerQueue
cancel_in_loop k q = do
  assert (sizes_agree q)
  r ←
      if mem_key k q.active_timers
      then erase_active k q
      else some (
          if q.calling_expired_timer
          then record q { canceling_timers = insert_key k q.canceling_timers }
          else q)
  assert (sizes_agree r)
  some r

-- The entries below the sentry (now, UINTPTR_MAX) and the rest; no pointer is UINTPTR_MAX.
pub split_expired : ℕ → List Timer → List Timer × List Timer
split_expired now [] = ([], [])
split_expired now (t ∷ ts) =
    let (expired, rest) = split_expired now ts in
    if leb t.expiration now then (t ∷ expired, rest) else ([], t ∷ ts)

-- `end == _timers.end() || now < end->first`
pub starts_after : ℕ → List Timer → Bool
starts_after now [] = true
starts_after now (t ∷ ts) = ltb now t.expiration

pub erase_all_active : List Timer → List Key → Option (List Key)
erase_all_active [] active = some active
erase_all_active (t ∷ ts) active =
    let (rest, n) = erase_key (key t) active in do assert (n == 1); erase_all_active ts rest

pub get_expired : ℕ → TimerQueue → Option (List Timer × TimerQueue)
get_expired now q =
    let (expired, rest) = split_expired now q.timers in
    do
      assert (sizes_agree q)
      assert (starts_after now rest)
      active ← erase_all_active expired q.active_timers
      assert (length rest == length active)
      some (expired, record q { timers = rest; active_timers = active })

-- The body of the loop in `reset`: a timer that is not put back is deleted.
pub put_back : ℕ → Timer → TimerQueue → Option TimerQueue
put_back now t q =
    if t.repeat && not (mem_key (key t) q.canceling_timers)
    then (do (_, r) ← insert (restart now t) q; some r)
    else some q

pub reinsert : ℕ → List Timer → TimerQueue → Option TimerQueue
reinsert now [] q = some q
reinsert now (t ∷ ts) q = do r ← put_back now t q; reinsert now ts r

-- `nextExpired`
pub next_expired : List Timer → ℕ
next_expired [] = invalid_time
next_expired (t ∷ ts) = t.expiration

-- The end of `reset`: what the descriptor is set to, by the clock of that moment.
pub next_fd : ℕ → List Timer → Option ℕ → Option ℕ
next_fd clock ts fd =
    let next = next_expired ts in if ltb 0 next then reset_timer_fd clock next else fd

pub rearm : ℕ → TimerQueue → TimerQueue
rearm clock q = record q { timer_fd = next_fd clock q.timers q.timer_fd }

pub reset : ℕ → ℕ → List Timer → TimerQueue → Option TimerQueue
unfolding rearm
reset now clock expired q = do r ← reinsert now expired q; some (rearm clock r)

-- What a callback asks of the queue, in the loop's thread, with what the clock says then.
pub data Call : Type 0 where
  adds : ℕ → Timer → Call
  cancels : Key → Call

pub call : Call → TimerQueue → Option TimerQueue
call (adds now t) q = add_timer_in_loop now t q
call (cancels k) q = cancel_in_loop k q

pub run_calls : List Call → TimerQueue → Option TimerQueue
run_calls [] q = some q
run_calls (c ∷ cs) q = call c q >>= run_calls cs

pub run_all : (Timer → List Call) → List Timer → TimerQueue → Option TimerQueue
run_all callback [] q = some q
run_all callback (t ∷ ts) q = run_calls (callback t) q >>= run_all callback ts

-- `handleRead`: the descriptor fires once, so it is unset until it is set again. `now` is read
-- at the start and `clock` at the end, where the descriptor is set.
pub handle_read : (Timer → List Call) → ℕ → ℕ → TimerQueue → Option TimerQueue
handle_read callback now clock q = do
  (expired, r) ← get_expired now (record q { timer_fd = none })
  s ← run_all callback expired (record r { calling_expired_timer = true; canceling_timers = [] })
  reset now clock expired (record s { calling_expired_timer = false })
