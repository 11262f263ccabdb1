-- ===== src/TimerQueue/Reset.antt =====
-- netlib/net/TimerQueue.cc, `reset`: a repeating timer comes back unless it was cancelled.
use netlib.Base.{
  All, ℕ, ◌+◌, ◌<◌, ◌≡◌, ◌≢◌, refl, sym, inl, inr, Bool, true, not, ◌&&◌, List, [], ◌∷◌, some,
  if◌then◌else◌, Bool-cases, arith,
}
use netlib.TimerQueue.{
  Timer, Key, TimerQueue, key, insert_entry, mem_key, restart, put_back, reinsert,
}
use netlib.TimerQueue.Order.{
  Apart, Distinct, count_key, keys, All-insert_entry, count_key-insert_entry,
}
use netlib.TimerQueue.Inv.{IsValid, insert_lem, inserted, inserted-IsValid}

-- The expired timers and those of the queue live at different addresses.
abbrev pub Separate : List Timer → List Timer → Type 0
Separate ts us = All (λ (t : Timer). Apart t.address us) ts

abbrev pub comes_back : List Key → Timer → Bool
comes_back canceling t = t.repeat && not (mem_key (key t) canceling)

abbrev pub returning : List Key → List Timer → List Key
returning canceling [] = []
returning canceling (t ∷ ts) =
    let rest = returning canceling ts in if comes_back canceling t then key t ∷ rest else rest

pub Separate-insert_entry :
    (t : Timer) (ts us : List Timer)
    → Apart t.address ts
    → Separate ts us
    → Separate ts (insert_entry t us)
Separate-insert_entry t [] us a s = tt
Separate-insert_entry t (u ∷ ts) us a s = (
  All-insert_entry (λ (v : Timer). v.address ≢ u.address) t us (λ e. a.0 (sym e)) s.0,
  Separate-insert_entry t ts us a.1 s.1,
)

-- `reset`'s loop never fails an assertion and keeps the queue sound. The expired timers that are
-- in it afterwards are those that repeat and were not cancelled meanwhile.
pub reinsert-IsValid :
    (now : ℕ) (expired : List Timer) (q : TimerQueue)
    → IsValid q
    → Distinct expired
    → Separate expired q.timers
    → All (λ (t : Timer). 0 < t.expiration) q.timers
    → All (λ (t : Timer). 0 < t.next now) expired
    → (r : TimerQueue) × (reinsert now expired q ≡ some r)
      × IsValid r
      × (r.timer_fd ≡ q.timer_fd)
      × All (λ (t : Timer). 0 < t.expiration) r.timers
      × ((k : Key)
          → count_key k (keys r.timers)
            ≡ count_key k (returning q.canceling_timers expired) + count_key k (keys q.timers))
unfolding reinsert put_back restart
reinsert-IsValid now [] q v d s p n = (q, refl, v, refl, p, λ k. omega arith)
reinsert-IsValid now (t ∷ ts) q v d s p n = elim (Bool-cases (comes_back q.canceling_timers t)) [
  | inl back ↦
      let t' : Timer = restart now t in
      let on : t.repeat ≡ true = ground arith in
      let late = All-insert_entry (λ (u : Timer). 0 < u.expiration) t' q.timers (rw on n.0) p in
      let w : IsValid (inserted q t') = inserted-IsValid q v t' s.0 in
      let (r, e, u, f, l, c) =
        reinsert-IsValid now ts (inserted q t') w d.1 (Separate-insert_entry t' ts q.timers d.0 s.1)
          late n.1 in
      (
        r,
        rw (back, insert_lem q v t' s.0) e,
        u,
        f,
        l,
        λ k. rw back (omega (arith, c k, count_key-insert_entry k t' q.timers s.0)),
      )
  | inr dropped ↦
      let (r, e, u, f, l, c) = reinsert-IsValid now ts q v d.1 s.1 p n.1 in
      (r, rw dropped e, u, f, l, λ k. rw dropped (c k))
]
