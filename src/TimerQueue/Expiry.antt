-- ===== src/TimerQueue/Expiry.antt =====
-- netlib/net/TimerQueue.cc, `getExpired`, `reset` and `handleRead`: who fires, and who stays.
use netlib.Base.{
  All, ℕ, ◌+◌, ◌≤◌, ◌<◌, ◌≡◌, refl, sym, ap, ◌∙◌, inl, inr, true, List, [], ◌∷◌, ◌++◌, some, length,
  length-append, leb, Bool-cases, subst, leb→le, arith,
}
use netlib.TimerQueue.{
  Timer, Key, TimerQueue, key, entry_lt, mem_key, erase_key, split_expired, starts_after,
  erase_all_active, get_expired,
}
use netlib.TimerQueue.Order.{Sorted, Distinct, count_key, keys, mem_key-count, erase_key_lem}
use netlib.TimerQueue.Inv.{IsValid, sizes_agree_lem}

split-append :
    (now : ℕ) (ts : List Timer) → (split_expired now ts).0 ++ (split_expired now ts).1 ≡ ts
unfolding split_expired
split-append now [] = refl
split-append now (t ∷ ts) = ground (arith, split-append now ts)

split_due :
    (now : ℕ) (ts : List Timer) → All (λ (t : Timer). t.expiration ≤ now) (split_expired now ts).0
unfolding split_expired
split_due now [] = tt
split_due now (t ∷ ts) = elim (Bool-cases (leb t.expiration now)) [
  | inl due ↦ rw due (leb→le _ _ due, split_due now ts)
  | inr later ↦ rw later tt
]

-- Behind a timer that is not due yet no timer is due.
after_later :
    (now : ℕ) (t : Timer) (ts : List Timer)
    → now < t.expiration
    → All (λ u. entry_lt t u ≡ true) ts
    → All (λ (u : Timer). now < u.expiration) ts
unfolding entry_lt
after_later now t [] h a = tt
after_later now t (u ∷ us) h a = (ground (arith, a.0), after_later now t us h a.1)

split_later :
    (now : ℕ) (ts : List Timer)
    → Sorted ts
    → All (λ (t : Timer). now < t.expiration) (split_expired now ts).1
unfolding split_expired
split_later now [] s = tt
split_later now (t ∷ ts) s = elim (Bool-cases (leb t.expiration now)) [
  | inl due ↦ rw due (split_later now ts s.1)
  | inr later ↦ rw later (ground arith, after_later now t ts (ground arith) s.0)
]

starts_after_lem :
    (now : ℕ) (ts : List Timer)
    → All (λ (t : Timer). now < t.expiration) ts
    → starts_after now ts ≡ true
unfolding starts_after
starts_after_lem now [] a = refl
starts_after_lem now (t ∷ ts) a = ground (arith, a.0)

Sorted-right : (xs ys : List Timer) → Sorted (xs ++ ys) → Sorted ys
Sorted-right [] ys s = s
Sorted-right (x ∷ xs) ys s = Sorted-right xs ys s.1

Distinct-right : (xs ys : List Timer) → Distinct (xs ++ ys) → Distinct ys
Distinct-right [] ys s = s
Distinct-right (x ∷ xs) ys s = Distinct-right xs ys s.1

count_key-append :
    (k : Key) (xs ys : List Timer)
    → count_key k (keys (xs ++ ys)) ≡ count_key k (keys xs) + count_key k (keys ys)
count_key-append k [] ys = omega arith
count_key-append k (x ∷ xs) ys = omega (arith, count_key-append k xs ys)

-- The loop that takes the expired timers from the second set.
erase_all_active_lem :
    (ts us : List Timer) (active : List Key)
    → ((k : Key) → count_key k active ≡ count_key k (keys (ts ++ us)))
    → length active ≡ length ts + length us
    → (rest : List Key) × (erase_all_active ts active ≡ some rest)
      × ((k : Key) → count_key k rest ≡ count_key k (keys us))
      × (length rest ≡ length us)
unfolding erase_all_active
erase_all_active_lem [] us active c l = (active, refl, c, omega arith)
erase_all_active_lem (t ∷ ts) us active c l =
    let held : mem_key (key t) active ≡ true =
      ground (arith, mem_key-count (key t) active, c (key t)) in
    let (n, m, d) = erase_key_lem (key t) active held in
    let (rest, r, e, k) =
      erase_all_active_lem ts us (erase_key (key t) active).0 (λ j. omega (arith, c j, d j))
        (omega arith) in
    (rest, rw n r, e, k)

-- `getExpired` never fails an assertion. It takes out exactly the timers that are due, in the order
-- of their expiration, leaves exactly those that are not, and keeps the two sets alike.
pub get_expired-Splits :
    (now : ℕ) (q : TimerQueue)
    → IsValid q
    → (expired : List Timer) × (r : TimerQueue) × (get_expired now q ≡ some (expired, r))
      × IsValid r
      × (q.timers ≡ expired ++ r.timers)
      × All (λ (t : Timer). t.expiration ≤ now) expired
      × All (λ (t : Timer). now < t.expiration) r.timers
unfolding get_expired
get_expired-Splits now q v =
    let expired : List Timer = (split_expired now q.timers).0 in
    let rest : List Timer = (split_expired now q.timers).1 in
    let parts : q.timers ≡ expired ++ rest = sym (split-append now q.timers) in
    let later = split_later now q.timers v.sorted in
    let (active, e, c, l) =
      erase_all_active_lem expired rest q.active_timers
        (λ k. v.synced k ∙ ap (λ ts. count_key k (keys ts)) parts)
        (sym v.sizes ∙ ap length parts ∙ length-append expired rest) in
    let r : TimerQueue = record q { timers = rest; active_timers = active } in
    let w : IsValid r = record {
      sorted = Sorted-right expired rest (subst Sorted parts v.sorted);
      distinct = Distinct-right expired rest (subst Distinct parts v.distinct);
      sizes = sym l;
      synced = c;
    } in
    (
      expired,
      r,
      rw (sizes_agree_lem q v, starts_after_lem now rest later, e, sizes_agree_lem r w) refl,
      w,
      parts,
      split_due now q.timers,
      later,
    )
