-- ===== src/CountDownLatch/Released.antt =====
-- netlib/base/CountDownLatch.cc: a thread gets through `wait` when the count has come down, no earlier
-- and no later.
use netlib.Base.{
  ℕ, ◌+◌, ◌≤◌, ◌<◌, ◌≡◌, ◌≢◌, refl, sym, ap, ◌∙◌, inl, inr, true, false, ltb, ◌==◌, Bool-cases, pos,
  sub_ℕ, ◌-ℤ◌, ltb_ℤ, set_at, set_at_same, set_at_other, same_or_not, arith,
}
use netlib.CountDownLatch.{
  Waiter, outside, asleep, woken, through, Latch, construct, test, wait, notified, notify_all,
  is_zero, count_down, Reach, made, calls, awakes, stirs, counts,
}

-- After `n` calls of `count_down` on a latch of `c`: threads sleep only while calls are missing, and
-- have returned only if none is.
pub record IsReleased (c n : ℕ) (l : Latch) : Type 0 where
  pub counted : l.count ≡ sub_ℕ c n
  pub sleeps : (i : ℕ) → l.waiters i ≡ asleep → n < c
  pub passed : (i : ℕ) → l.waiters i ≡ through → c ≤ n

-- A new latch has missed no call.
pub construct-IsReleased : (c : ℕ) → IsReleased c 0 (construct (pos c))
unfolding construct
construct-IsReleased c = record { counted = ground arith; sleeps = λ i e. cc; passed = λ i e. cc }

above-sub_ℕ : (c n : ℕ) → ltb_ℤ (pos 0) (sub_ℕ c n) ≡ ltb n c
above-sub_ℕ c n = ground arith

is_zero-sub_ℕ : (c n : ℕ) → is_zero (sub_ℕ c n) ≡ (n == c)
is_zero-sub_ℕ c n = ground arith

sub_ℕ-less : (c n : ℕ) → sub_ℕ c n -ℤ pos 1 ≡ sub_ℕ c (n + 1)
unfolding ◌-ℤ◌
sub_ℕ-less c n = ground arith

-- A test puts the thread to sleep while calls are missing.
test-asleep : (c n : ℕ) → test (sub_ℕ c n) ≡ asleep → n < c
test-asleep c n e = elim (Bool-cases (ltb n c)) [
  | inl missing ↦ ground (arith, missing)
  | inr enough ↦ let h : test (sub_ℕ c n) ≡ through = rw (above-sub_ℕ c n, enough) refl in cc (e, h)
]

test-through : (c n : ℕ) → test (sub_ℕ c n) ≡ through → c ≤ n
test-through c n e = elim (Bool-cases (ltb n c)) [
  | inl missing ↦
      let h : test (sub_ℕ c n) ≡ asleep = rw (above-sub_ℕ c n, missing) refl in cc (e, h)
  | inr enough ↦ ground (arith, enough)
]

pub wait-IsReleased : (c n i : ℕ) (l : Latch) → IsReleased c n l → IsReleased c n (wait i l)
unfolding wait
wait-IsReleased c n i l s = record {
  counted = s.counted;
  sleeps = λ j e. elim (same_or_not j i) [
    | inl here ↦
        let now : test l.count ≡ asleep =
          sym (set_at_same i (test l.count) l.waiters)
          ∙ ap (set_at i (test l.count) l.waiters) (sym here)
          ∙ e in
        test-asleep c n (ap test (sym s.counted) ∙ now)
    | inr other ↦ s.sleeps j (sym (set_at_other i (test l.count) l.waiters j other) ∙ e)
  ];
  passed = λ j e. elim (same_or_not j i) [
    | inl here ↦
        let now : test l.count ≡ through =
          sym (set_at_same i (test l.count) l.waiters)
          ∙ ap (set_at i (test l.count) l.waiters) (sym here)
          ∙ e in
        test-through c n (ap test (sym s.counted) ∙ now)
    | inr other ↦ s.passed j (sym (set_at_other i (test l.count) l.waiters j other) ∙ e)
  ];
}

notified-wakes : (w : Waiter) → notified w ≢ asleep
notified-wakes outside e = cc
notified-wakes asleep e = cc
notified-wakes woken e = cc
notified-wakes through e = cc

notified-through : (w : Waiter) → notified w ≡ through → w ≡ through
notified-through outside e = cc
notified-through asleep e = cc
notified-through woken e = cc
notified-through through e = refl

pub count_down-IsReleased :
    (c n : ℕ) (l : Latch) → IsReleased c n l → IsReleased c (n + 1) (count_down l)
unfolding count_down notify_all
count_down-IsReleased c n l s =
    let less : l.count -ℤ pos 1 ≡ sub_ℕ c (n + 1) =
      ap (λ k. k -ℤ pos 1) s.counted ∙ sub_ℕ-less c n in
    elim (Bool-cases (n + 1 == c)) [
      | inl last ↦
          let zero_now : is_zero (l.count -ℤ pos 1) ≡ true =
            ap is_zero less ∙ is_zero-sub_ℕ c (n + 1) ∙ last in
          rw zero_now (record {
            counted = less;
            sleeps = λ i e. absurd (notified-wakes (l.waiters i) e);
            passed = λ i e.
                let before = s.passed i (notified-through (l.waiters i) e) in omega (arith, before);
          })
      | inr more ↦
          let not_zero : is_zero (l.count -ℤ pos 1) ≡ false =
            ap is_zero less ∙ is_zero-sub_ℕ c (n + 1) ∙ more in
          rw not_zero (record {
            counted = less;
            sleeps = λ i e. let before = s.sleeps i e in ground (arith, before, more);
            passed = λ i e. let before = s.passed i e in omega (arith, before);
          })
    ]

-- However many threads call `wait` on a latch of `c` and however they interleave with `n` calls of
-- `countDown`, with notifications and awakenings for no reason: a thread sleeps only while `n` is
-- less than `c`, so that none is forgotten by the last call, and has returned only if it is not.
pub Reach-IsReleased : {c n : ℕ} {l : Latch} → Reach (pos c) n l → IsReleased c n l
Reach-IsReleased {c} made = construct-IsReleased c
Reach-IsReleased {c} {n} (calls i r e) = wait-IsReleased c n i _ (Reach-IsReleased r)
Reach-IsReleased {c} {n} (awakes i r e) = wait-IsReleased c n i _ (Reach-IsReleased r)
Reach-IsReleased {c} {n} (stirs i r e) = wait-IsReleased c n i _ (Reach-IsReleased r)
Reach-IsReleased (counts r) = count_down-IsReleased _ _ _ (Reach-IsReleased r)
