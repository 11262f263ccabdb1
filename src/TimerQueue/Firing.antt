-- ===== src/TimerQueue/Firing.antt =====
-- netlib/net/TimerQueue.cc, `handleRead`: from the expired timers through their callbacks to `reset`.
use netlib.Base.{
  All, All-map, ℕ, ◌+◌, ◌≤◌, ◌<◌, ◌≡◌, ◌≢◌, refl, subst, inl, inr, true, false, List, [], ◌∷◌, ◌++◌,
  Option, none, some, Bool-cases,
}
use netlib.TimerQueue.{
  Timer, Key, TimerQueue, Call, adds, cancels, call, run_calls, run_all, handle_read, get_expired,
  is_earliest, add_timer_in_loop, reset_timer_fd, mem_key,
}
use netlib.TimerQueue.Order.{Apart, Distinct, count_key, keys, All-insert_entry, All-erase_timer}
use netlib.TimerQueue.Inv.{
  IsValid, insert_lem, inserted, inserted-IsValid, after_cancel, after_cancel-IsValid,
  cancel_in_loop_lem,
}
use netlib.TimerQueue.Expiry.{get_expired-Splits}
use netlib.TimerQueue.Reset.{Separate, Separate-insert_entry, returning}
use netlib.TimerQueue.Wakeup.{Armed, reset-Armed}

abbrev Late : List Timer → Type 0
Late ts = All (λ (t : Timer). 0 < t.expiration) ts

-- While callbacks run: the queue is sound and apart from the expired timers, which still live.
pub record Running (expired : List Timer) (q : TimerQueue) : Type 0 where
  pub valid : IsValid q
  pub separate : Separate expired q.timers
  pub late : Late q.timers

-- A call adds a timer where no other lives, and for a time after the epoch.
abbrev IsNew : List Timer → Call → TimerQueue → Type 0
IsNew expired (adds now t) q =
    Apart t.address q.timers × Apart t.address expired × (0 < t.expiration)
IsNew expired (cancels k) q = Unit {0}

-- So do the calls of a callback, each in the queue that it finds, and those of all callbacks.
abbrev AreNew : List Timer → List Call → TimerQueue → Type 0
AreNew expired [] q = Unit {0}
AreNew expired (c ∷ cs) q =
    IsNew expired c q × ((r : TimerQueue) → call c q ≡ some r → AreNew expired cs r)

abbrev pub AllNew : (Timer → List Call) → List Timer → List Timer → TimerQueue → Type 0
AllNew callback expired [] q = Unit {0}
AllNew callback expired (t ∷ ts) q =
    AreNew expired (callback t) q
    × ((r : TimerQueue) → run_calls (callback t) q ≡ some r → AllNew callback expired ts r)

after_cancel-timers :
    (P : Timer → Type 0) (k : Key) (q : TimerQueue)
    → All P q.timers
    → All P (after_cancel k q).timers
unfolding after_cancel
after_cancel-timers P k q a = elim (Bool-cases (mem_key k q.active_timers)) [
  | inl held ↦ rw held (All-erase_timer P k.address q.timers a)
  | inr not_held ↦ elim (Bool-cases q.calling_expired_timer) [
    | inl calling ↦ rw (not_held, calling) a
    | inr idle ↦ rw (not_held, idle) a
  ]
]

module _ (expired : List Timer) where
  abbrev Goes : Option TimerQueue → Type 0
  Goes o = (r : TimerQueue) × (o ≡ some r) × Running expired r

  call-Running :
      (c : Call) (q : TimerQueue) → Running expired q → IsNew expired c q → Goes (call c q)
  unfolding call add_timer_in_loop
  call-Running (adds now t) q s (a, b, p) =
      let w = inserted-IsValid q s.valid t a in
      let apart = Separate-insert_entry t expired q.timers b s.separate in
      let late = All-insert_entry (λ (u : Timer). 0 < u.expiration) t q.timers p s.late in
      elim (Bool-cases (is_earliest t.expiration q.timers)) [
        | inl first ↦ (
          record (inserted q t) { timer_fd = reset_timer_fd now t.expiration },
          rw (insert_lem q s.valid t a, first) refl,
          record {
            valid = record {
              sorted = w.sorted;
              distinct = w.distinct;
              sizes = w.sizes;
              synced = w.synced;
            };
            separate = apart;
            late = late;
          },
        )
        | inr later ↦ (
          inserted q t,
          rw (insert_lem q s.valid t a, later) refl,
          record { valid = w; separate = apart; late = late },
        )
      ]
  call-Running (cancels k) q s n = (
    after_cancel k q,
    cancel_in_loop_lem k q s.valid,
    record {
      valid = after_cancel-IsValid k q s.valid;
      separate =
          All-map (λ t a. after_cancel-timers (λ (u : Timer). u.address ≢ t.address) k q a) expired
            s.separate;
      late = after_cancel-timers (λ (u : Timer). 0 < u.expiration) k q s.late;
    },
  )

  run_calls-Running :
      (cs : List Call) (q : TimerQueue)
      → Running expired q
      → AreNew expired cs q
      → Goes (run_calls cs q)
  unfolding run_calls
  run_calls-Running [] q s n = (q, refl, s)
  run_calls-Running (c ∷ cs) q s (n, later) =
      let (r, e, u) = call-Running c q s n in
      let (r', e', u') = run_calls-Running cs r u (later r e) in (r', rw e e', u')

  run_all-Running :
      (callback : Timer → List Call) (ts : List Timer) (q : TimerQueue)
      → Running expired q
      → AllNew callback expired ts q
      → Goes (run_all callback ts q)
  unfolding run_all
  run_all-Running callback [] q s n = (q, refl, s)
  run_all-Running callback (t ∷ ts) q s (n, later) =
      let (r, e, u) = run_calls-Running (callback t) q s n in
      let (r', e', u') = run_all-Running callback ts r u (later r e) in (r', rw e e', u')

All-parts : (P : Timer → Type 0) (ts us : List Timer) → All P (ts ++ us) → All P ts × All P us
All-parts P [] us a = (tt, a)
All-parts P (t ∷ ts) us (p, a) = let (b, c) = All-parts P ts us a in ((p, b), c)

Distinct-parts : (ts us : List Timer) → Distinct (ts ++ us) → Distinct ts × Separate ts us
Distinct-parts [] us d = (tt, tt)
Distinct-parts (t ∷ ts) us (a, d) =
    let (here, there) = All-parts (λ u. u.address ≢ t.address) ts us a in
    let (ds, s) = Distinct-parts ts us d in ((here, ds), (there, s))

-- The queue as the callbacks find it.
abbrev pub firing : TimerQueue → TimerQueue
firing q = record q { calling_expired_timer = true; canceling_timers = [] }

-- The descriptor of timerfd has fired, in a sound queue whose times are after the epoch, and the
-- callbacks add and cancel any timers, new ones where no other lives. No assertion fails. Exactly the
-- timers that were due fire, in order. Afterwards the queue is sound, it holds what the callbacks left
-- in it and those of the fired timers that repeat and were not cancelled meanwhile, and
-- the descriptor is set: it fires no later than the first timer's time, or than 100 microseconds
-- after the clock was read to set it where that is later.
pub handle_read-Fires :
    (callback : Timer → List Call) (now clock : ℕ) (q : TimerQueue)
    → IsValid q
    → Late q.timers
    → All (λ (t : Timer). 0 < t.next now) q.timers
    → ((expired : List Timer) (r : TimerQueue)
        → get_expired now (record q { timer_fd = none }) ≡ some (expired, r)
        → AllNew callback expired expired (firing r))
    → (expired : List Timer) × (taken s r : TimerQueue) × (handle_read callback now clock q
        ≡ some r)
      × (run_all callback expired (firing taken) ≡ some s)
      × (q.timers ≡ expired ++ taken.timers)
      × All (λ (t : Timer). t.expiration ≤ now) expired
      × All (λ (t : Timer). now < t.expiration) taken.timers
      × IsValid r
      × Armed clock r.timer_fd r.timers
      × ((k : Key)
          → count_key k (keys r.timers)
            ≡ count_key k (returning s.canceling_timers expired) + count_key k (keys s.timers))
unfolding handle_read
handle_read-Fires callback now clock q v late next new =
    let unset : TimerQueue = record q { timer_fd = none } in
    let (expired, r, e, w, parts, due, not_due) =
      get_expired-Splits now unset
        (record { sorted = v.sorted; distinct = v.distinct; sizes = v.sizes; synced = v.synced }) in
    let (distinct, separate) = Distinct-parts expired r.timers (subst Distinct parts v.distinct) in
    let (_, late_rest) =
      All-parts (λ t. 0 < t.expiration) expired r.timers (subst Late parts late) in
    let (next_expired, _) =
      All-parts (λ t. 0 < t.next now) expired r.timers
        (subst (λ ts. All (λ (t : Timer). 0 < t.next now) ts) parts next) in
    let running : Running expired (firing r) = record {
      valid = record {
        sorted = w.sorted;
        distinct = w.distinct;
        sizes = w.sizes;
        synced = w.synced;
      };
      separate = separate;
      late = late_rest;
    } in
    let (s, f, u) = run_all-Running expired callback expired (firing r) running (new expired r e) in
    let after : TimerQueue = record s { calling_expired_timer = false } in
    let sound : IsValid after = record {
      sorted = u.valid.sorted;
      distinct = u.valid.distinct;
      sizes = u.valid.sizes;
      synced = u.valid.synced;
    } in
    let (t, g, valid, armed, counts) =
      reset-Armed now clock expired after sound distinct u.separate u.late next_expired in
    (expired, r, s, t, rw (e, f) g, f, parts, due, not_due, valid, armed, counts)
