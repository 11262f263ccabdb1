-- ===== src/TimerQueue/Inv.antt =====
-- netlib/net/TimerQueue.cc: the two sets hold the same timers, through every operation.
use netlib.Base.{
  suc, ◌<◌, ◌≡◌, refl, ap, ◌∙◌, inl, inr, true, false, ◌∷◌, some, length, if◌then◌else◌, Bool-cases,
  arith,
}
use netlib.TimerQueue.{
  Timer, Key, TimerQueue, key, same_key, insert_entry, mem_key, insert_key, erase_key, erase_timer,
  insert, cancel_in_loop, erase_active, is_earliest, sizes_agree, construct,
}
use netlib.TimerQueue.Order.{
  Sorted, Apart, Distinct, count_key, keys, insert_entry-Sorted, insert_entry-Distinct,
  length-insert_entry, count_key-insert_entry, count_key-Apart, mem_key-count, mem_key-insert_key,
  count_key-le-one, erase_key_lem, erase_timer_lem, erase_timer-Sorted, erase_timer-Distinct,
}

pub record IsValid (q : TimerQueue) : Type 0 where
  pub sorted : Sorted q.timers
  pub distinct : Distinct q.timers
  pub sizes : length q.timers ≡ length q.active_timers
  pub synced : (k : Key) → count_key k q.active_timers ≡ count_key k (keys q.timers)

pub construct-IsValid : IsValid construct
unfolding construct
construct-IsValid = record { sorted = tt; distinct = tt; sizes = refl; synced = λ k. refl }

abbrev pub inserted : TimerQueue → Timer → TimerQueue
inserted q t = record q {
  timers = insert_entry t q.timers;
  active_timers = key t ∷ q.active_timers;
}

abbrev pub cancelled : TimerQueue → Key → TimerQueue
cancelled q k = record q {
  timers = (erase_timer k.address q.timers).0;
  active_timers = (erase_key k q.active_timers).0;
}

module _ (q : TimerQueue) (v : IsValid q) where
  pub sizes_agree_lem : sizes_agree q ≡ true
  sizes_agree_lem = ground (arith, v.sizes)

  pub inserted-IsValid : (t : Timer) → Apart t.address q.timers → IsValid (inserted q t)
  inserted-IsValid t a = record {
    sorted = insert_entry-Sorted t q.timers v.sorted;
    distinct = insert_entry-Distinct t q.timers a v.distinct;
    sizes = length-insert_entry t q.timers a ∙ ap suc v.sizes;
    synced = λ k. omega (arith, count_key-insert_entry k t q.timers a, v.synced k);
  }

  -- A timer at an address of its own enters both sets.
  pub insert_lem :
      (t : Timer)
      → Apart t.address q.timers
      → insert t q ≡ some (is_earliest t.expiration q.timers, inserted q t)
  unfolding insert insert_key
  insert_lem t a =
      let absent : mem_key (key t) q.active_timers ≡ false =
        mem_key-count (key t) q.active_timers
        ∙ ground (arith, v.synced (key t), count_key-Apart (key t) q.timers a) in
      rw (sizes_agree_lem, absent) refl

  module _ (k : Key) (held : mem_key k q.active_timers ≡ true) where
    held_timer : 0 < count_key k (keys q.timers)
    held_timer = ground (arith, mem_key-count k q.active_timers, v.synced k)

    cancelled-IsValid : IsValid (cancelled q k)
    cancelled-IsValid =
        let (_, l, c) = erase_timer_lem k q.timers v.distinct held_timer in
        let (_, m, d) = erase_key_lem k q.active_timers held in
        record {
          sorted = erase_timer-Sorted k.address q.timers v.sorted;
          distinct = erase_timer-Distinct k.address q.timers v.distinct;
          sizes = omega (arith, v.sizes);
          synced = λ j. omega (arith, c j, d j, v.synced j);
        }

    erase_active_lem : erase_active k q ≡ some (cancelled q k)
    unfolding erase_active
    erase_active_lem = rw ((erase_timer_lem k q.timers v.distinct held_timer).0) refl

-- The queue after `cancleInLoop`.
unfoldable pub after_cancel : Key → TimerQueue → TimerQueue
after_cancel k q =
    if mem_key k q.active_timers
    then cancelled q k
    else (if q.calling_expired_timer
        then record q { canceling_timers = insert_key k q.canceling_timers }
        else q)

module _ (k : Key) (q : TimerQueue) (v : IsValid q) where
  pub after_cancel-IsValid : IsValid (after_cancel k q)
  unfolding after_cancel
  after_cancel-IsValid = elim (Bool-cases (mem_key k q.active_timers)) [
    | inl held ↦ rw held (cancelled-IsValid q v k held)
    | inr not_held ↦ elim (Bool-cases q.calling_expired_timer) [
      | inl calling ↦
          rw (not_held, calling)
            (record {
              sorted = v.sorted;
              distinct = v.distinct;
              sizes = v.sizes;
              synced = v.synced;
            })
      | inr idle ↦ simp (not_held, idle) v
    ]
  ]

  pub cancel_in_loop_lem : cancel_in_loop k q ≡ some (after_cancel k q)
  unfolding cancel_in_loop after_cancel
  cancel_in_loop_lem = elim (Bool-cases (mem_key k q.active_timers)) [
    | inl held ↦
        rw
          (
            sizes_agree_lem q v,
            held,
            erase_active_lem q v k held,
            sizes_agree_lem (cancelled q k) (cancelled-IsValid q v k held),
          )
          refl
    | inr not_held ↦ elim (Bool-cases q.calling_expired_timer) [
      | inl calling ↦ rw (not_held, calling, sizes_agree_lem q v) refl
      | inr idle ↦ rw (not_held, idle, sizes_agree_lem q v) refl
    ]
  ]

  -- What is left in the sets.
  pub after_cancel-count :
      (j : Key)
      → count_key j (keys (after_cancel k q).timers)
        ≡ (if same_key k j then 0 else count_key j (keys q.timers))
  unfolding after_cancel
  after_cancel-count j = elim (Bool-cases (mem_key k q.active_timers)) [
    | inl held ↦
        let (_, _, c) = erase_timer_lem k q.timers v.distinct (held_timer q v k held) in
        let few = count_key-le-one j q.timers v.distinct in rw held (ground (arith, c j, few))
    | inr not_held ↦
        let absent : count_key k (keys q.timers) ≡ 0 =
          ground (arith, mem_key-count k q.active_timers, v.synced k) in
        elim (Bool-cases (same_key k j)) [
          | inl same ↦
              rw (not_held, same)
                (timers_of ∙ ap (λ (i : Key). count_key i (keys q.timers)) (ground arith) ∙ absent)
          | inr other ↦ rw (not_held, other) timers_of
        ]
  ]
    where
      timers_of :
          count_key j (
            keys
              (if q.calling_expired_timer
                then record q { canceling_timers = insert_key k q.canceling_timers }
                else q).timers)
          ≡ count_key j (keys q.timers)
      timers_of = ground arith

-- Cancelling never fails an assertion. Afterwards the timer is in neither set, and every other one
-- is where it was. A timer in neither set, while callbacks are running, is marked for `reset`.
pub cancel_in_loop-IsValid :
    (k : Key) (q : TimerQueue)
    → IsValid q
    → (r : TimerQueue) × (cancel_in_loop k q ≡ some r)
      × IsValid r
      × ((j : Key)
          → count_key j r.active_timers ≡ (if same_key k j then 0 else count_key j q.active_timers))
      × ((j : Key)
          → count_key j (keys r.timers) ≡ (if same_key k j then 0 else count_key j (keys q.timers)))
      × (mem_key k q.active_timers ≡ false
          → q.calling_expired_timer ≡ true
          → mem_key k r.canceling_timers ≡ true)
unfolding after_cancel
cancel_in_loop-IsValid k q v =
    let w = after_cancel-IsValid k q v in
    let c = after_cancel-count k q v in
    (
      after_cancel k q,
      cancel_in_loop_lem k q v,
      w,
      (λ j. w.synced j ∙ c j ∙ rw (v.synced j) refl),
      c,
      λ not_held calling. rw (not_held, calling) (mem_key-insert_key k q.canceling_timers),
    )
