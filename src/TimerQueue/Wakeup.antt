-- ===== src/TimerQueue/Wakeup.antt =====
-- netlib/net/TimerQueue.cc: when the timer descriptor fires.
use netlib.Base.{
  All, ℕ, ◌+◌, ◌≤◌, ◌<◌, ◌≡◌, refl, ◌⊎◌, inl, inr, true, List, [], ◌∷◌, Option, none, some, ltb,
  ◌==◌, if◌then◌else◌, Bool-cases, ltb_false→le, lt→ltb, arith,
}
use netlib.TimerQueue.{
  Timer, Key, TimerQueue, Call, adds, cancels, call, next_fd, reset, reset_timer_fd,
  how_much_time_from_now, entry_lt, insert_entry, erase_timer, mem_key, add_timer_in_loop, rearm,
  is_earliest, next_expired,
}
use netlib.TimerQueue.Order.{Sorted, Apart, Distinct, count_key, keys}
use netlib.TimerQueue.Reset.{Separate, returning, reinsert-IsValid}
use netlib.TimerQueue.Inv.{
  IsValid, insert_lem, inserted, inserted-IsValid, after_cancel, after_cancel-IsValid,
  cancel_in_loop_lem,
}

-- The descriptor is set, for no later than the first timer's time or 100 microseconds after `clock`.
abbrev pub Armed : ℕ → Option ℕ → List Timer → Type 0
Armed clock fd [] = Unit {0}
Armed clock none (t ∷ ts) = ⊥
Armed clock (some w) (t ∷ ts) = (w ≤ t.expiration) ⊎ (w ≤ clock + 100)

reset_timer_fd-Armed :
    (now : ℕ) (t : Timer) (ts : List Timer) → Armed now (reset_timer_fd now t.expiration) (t ∷ ts)
unfolding reset_timer_fd how_much_time_from_now
reset_timer_fd-Armed now t ts = elim (Bool-cases (ltb t.expiration (now + 100))) [
  | inl soon ↦ rw soon (ground arith)
  | inr later ↦ rw later (ground arith)
]

earlier_first : (t u : Timer) → ltb t.expiration u.expiration ≡ true → entry_lt t u ≡ true
unfolding entry_lt
earlier_first t u h = ground arith

entry_lt-le : (t u : Timer) → entry_lt t u ≡ true → t.expiration ≤ u.expiration
unfolding entry_lt
entry_lt-le t u h = ground arith

-- The clock only goes on.
later-Armed :
    (clock now : ℕ) (fd : Option ℕ) (ts : List Timer)
    → clock ≤ now
    → Armed clock fd ts
    → Armed now fd ts
later-Armed clock now fd [] h a = tt
later-Armed clock now none (t ∷ ts) h a = a
later-Armed clock now (some w) (t ∷ ts) h (inl early) = inl early
later-Armed clock now (some w) (t ∷ ts) h (inr soon) = inr (omega arith)

-- A first timer that is later or is another leaves the descriptor early enough.
first-Armed :
    (clock : ℕ) (fd : Option ℕ) (t u : Timer) (ts us : List Timer)
    → t.expiration ≤ u.expiration
    → Armed clock fd (t ∷ ts)
    → Armed clock fd (u ∷ us)
first-Armed clock none t u ts us h a = a
first-Armed clock (some w) t u ts us h (inl early) = inl (omega arith)
first-Armed clock (some w) t u ts us h (inr soon) = inr soon

insert-Armed :
    (now : ℕ) (t : Timer) (ts : List Timer) (fd : Option ℕ)
    → Armed now fd ts
    → Armed now
        (if is_earliest t.expiration ts then reset_timer_fd now t.expiration else fd)
        (insert_entry t ts)
unfolding is_earliest insert_entry
insert-Armed now t [] fd a = reset_timer_fd-Armed now t []
insert-Armed now t (u ∷ us) fd a = elim (Bool-cases (ltb t.expiration u.expiration)) [
  | inl sooner ↦ rw (earlier_first t u sooner, sooner) (reset_timer_fd-Armed now t (u ∷ us))
  | inr not_sooner ↦
      let k : u.expiration ≤ t.expiration = ltb_false→le t.expiration u.expiration not_sooner in
      elim (Bool-cases (entry_lt t u)) [
        | inl before ↦ rw (not_sooner, before) (first-Armed now fd u t us (u ∷ us) k a)
        | inr not_before ↦ elim (Bool-cases (entry_lt u t)) [
          | inl after ↦
              rw (not_sooner, not_before, after)
                (first-Armed now fd u u us (insert_entry t us) (omega arith) a)
          | inr same ↦ rw (not_sooner, not_before, same) a
        ]
      ]
]

erase-Armed :
    (clock a : ℕ) (ts : List Timer) (fd : Option ℕ)
    → Sorted ts
    → Armed clock fd ts
    → Armed clock fd (erase_timer a ts).0
unfolding erase_timer
erase-Armed clock a [] fd s h = tt
erase-Armed clock a (t ∷ []) fd s h = elim (Bool-cases (t.address == a)) [
  | inl hit ↦ rw hit tt
  | inr miss ↦ rw miss h
]
erase-Armed clock a (t ∷ (u ∷ us)) fd s h = elim (Bool-cases (t.address == a)) [
  | inl hit ↦ rw hit (first-Armed clock fd t u (u ∷ us) us (entry_lt-le t u s.0.0) h)
  | inr miss ↦ rw miss (first-Armed clock fd t t (u ∷ us) _ (omega arith) h)
]

after_cancel-Armed :
    (clock : ℕ) (k : Key) (q : TimerQueue)
    → IsValid q
    → Armed clock q.timer_fd q.timers
    → Armed clock (after_cancel k q).timer_fd (after_cancel k q).timers
unfolding after_cancel
after_cancel-Armed clock k q v h = elim (Bool-cases (mem_key k q.active_timers)) [
  | inl held ↦ rw held (erase-Armed clock k.address q.timers q.timer_fd v.sorted h)
  | inr not_held ↦ elim (Bool-cases q.calling_expired_timer) [
    | inl calling ↦ simp (not_held, calling) h
    | inr idle ↦ simp (not_held, idle) h
  ]
]

-- A call meets new timers only, and reads the clock after what was read before.
abbrev pub IsFresh : ℕ → Call → TimerQueue → Type 0
IsFresh clock (adds now t) q = (clock ≤ now) × Apart t.address q.timers
IsFresh clock (cancels k) q = Unit {0}

-- The last reading of the clock.
abbrev pub read_clock : ℕ → Call → ℕ
read_clock clock (adds now t) = now
read_clock clock (cancels k) = clock

-- The queue is sound, and while there is a timer the descriptor is set: it fires no later than the
-- first timer's time, or than 100 microseconds after the last reading of the clock where that is
-- later. Adding a timer at an address that no other has, by a clock that does not go back, or
-- cancelling any keeps all that, and fails no assertion.
pub call-Armed :
    (clock : ℕ) (c : Call) (q : TimerQueue)
    → IsValid q
    → Armed clock q.timer_fd q.timers
    → IsFresh clock c q
    → (r : TimerQueue) × (call c q ≡ some r)
      × IsValid r
      × Armed (read_clock clock c) r.timer_fd r.timers
unfolding call add_timer_in_loop
call-Armed clock (adds now t) q v h (after, a) =
    let w = inserted-IsValid q v t a in
    let i =
      insert-Armed now t q.timers q.timer_fd (later-Armed clock now q.timer_fd q.timers after h) in
    elim (Bool-cases (is_earliest t.expiration q.timers)) [
      | inl first ↦ (
        record (inserted q t) { timer_fd = reset_timer_fd now t.expiration },
        rw (insert_lem q v t a, first) refl,
        record { sorted = w.sorted; distinct = w.distinct; sizes = w.sizes; synced = w.synced },
        rw first at i,
      )
      | inr later ↦ (inserted q t, rw (insert_lem q v t a, later) refl, w, rw later at i)
    ]
call-Armed clock (cancels k) q v h a = (
  after_cancel k q,
  cancel_in_loop_lem k q v,
  after_cancel-IsValid k q v,
  after_cancel-Armed clock k q v h,
)

next_fd-Armed :
    (clock : ℕ) (ts : List Timer) (fd : Option ℕ)
    → All (λ (t : Timer). 0 < t.expiration) ts
    → Armed clock (next_fd clock ts fd) ts
unfolding next_fd next_expired
next_fd-Armed clock [] fd h = tt
next_fd-Armed clock (t ∷ ts) fd h = rw (lt→ltb 0 t.expiration h.0) (reset_timer_fd-Armed clock t ts)

-- `reset` never fails an assertion, puts back exactly the expired timers that repeat and were not
-- cancelled while the callbacks ran, and sets the descriptor again, for the first timer's time or
-- 100 microseconds from then, as long as no timer is set for the epoch or before.
pub reset-Armed :
    (now clock : ℕ) (expired : List Timer) (q : TimerQueue)
    → IsValid q
    → Distinct expired
    → Separate expired q.timers
    → All (λ (t : Timer). 0 < t.expiration) q.timers
    → All (λ (t : Timer). 0 < t.next now) expired
    → (r : TimerQueue) × (reset now clock expired q ≡ some r)
      × IsValid r
      × Armed clock r.timer_fd r.timers
      × ((k : Key)
          → count_key k (keys r.timers)
            ≡ count_key k (returning q.canceling_timers expired) + count_key k (keys q.timers))
unfolding reset rearm
reset-Armed now clock expired q v d s p n =
    let (r, e, w, _, late, c) = reinsert-IsValid now expired q v d s p n in
    (
      record r { timer_fd = next_fd clock r.timers r.timer_fd },
      rw e refl,
      record { sorted = w.sorted; distinct = w.distinct; sizes = w.sizes; synced = w.synced },
      next_fd-Armed clock r.timers r.timer_fd late,
      c,
    )
