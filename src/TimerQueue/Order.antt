-- ===== src/TimerQueue/Order.antt =====
-- netlib/net/TimerQueue.cc: the two sets of timers, as sorted lists and as counts of keys.
use netlib.Base.{
  All, ℕ, suc, ◌+◌, ◌≤◌, ◌<◌, ◌≡◌, ◌≢◌, refl, sym, ap, inl, inr, true, false, List, [], ◌∷◌, length,
  ltb, ◌==◌, if◌then◌else◌, Bool-cases, subst, arith,
}
use netlib.TimerQueue.{
  Timer, Key, key, same_key, entry_lt, insert_entry, mem_key, insert_key, erase_key, erase_timer,
}

-- In the order of the set, without repetition.
abbrev pub Sorted : List Timer → Type 0
Sorted [] = Unit {0}
Sorted (t ∷ ts) = All (λ u. entry_lt t u ≡ true) ts × Sorted ts

-- Living timers have addresses of their own.
abbrev pub Apart : ℕ → List Timer → Type 0
Apart a ts = All (λ (u : Timer). u.address ≢ a) ts

abbrev pub Distinct : List Timer → Type 0
Distinct [] = Unit {0}
Distinct (t ∷ ts) = Apart t.address ts × Distinct ts

abbrev pub count_key : Key → List Key → ℕ
count_key k [] = 0
count_key k (j ∷ js) = (if same_key j k then 1 else 0) + count_key k js

abbrev pub keys : List Timer → List Key
keys [] = []
keys (t ∷ ts) = key t ∷ keys ts

pub All-insert_entry {κ} :
    (P : Timer → Type κ) (t : Timer) (ts : List Timer) → P t → All P ts → All P (insert_entry t ts)
unfolding insert_entry
All-insert_entry P t [] p a = (p, tt)
All-insert_entry P t (u ∷ us) p a = elim (Bool-cases (entry_lt t u)) [
  | inl before ↦ rw before (p, a)
  | inr not_before ↦ elim (Bool-cases (entry_lt u t)) [
    | inl after ↦ rw (not_before, after) (a.0, All-insert_entry P t us p a.1)
    | inr same ↦ rw (not_before, same) a
  ]
]

entry_lt_trans : (t u v : Timer) → entry_lt t u ≡ true → entry_lt u v ≡ true → entry_lt t v ≡ true
unfolding entry_lt
entry_lt_trans t u v h k = ground arith

All-before :
    (t u : Timer) (us : List Timer)
    → entry_lt t u ≡ true
    → All (λ v. entry_lt u v ≡ true) us
    → All (λ v. entry_lt t v ≡ true) us
All-before t u [] h a = tt
All-before t u (v ∷ us) h a = (entry_lt_trans t u v h a.0, All-before t u us h a.1)

pub insert_entry-Sorted : (t : Timer) (ts : List Timer) → Sorted ts → Sorted (insert_entry t ts)
unfolding insert_entry
insert_entry-Sorted t [] s = (tt, tt)
insert_entry-Sorted t (u ∷ us) s = elim (Bool-cases (entry_lt t u)) [
  | inl before ↦ rw before ((before, All-before t u us before s.0), s)
  | inr not_before ↦ elim (Bool-cases (entry_lt u t)) [
    | inl after ↦
        rw (not_before, after)
          (All-insert_entry (λ v. entry_lt u v ≡ true) t us after s.0, insert_entry-Sorted t us s.1)
    | inr same ↦ rw (not_before, same) s
  ]
]

-- Entries with different pointers are ordered one way or the other.
entry_lt_total : (t u : Timer) → u.address ≢ t.address → entry_lt t u ≡ false → entry_lt u t ≡ true
unfolding entry_lt
entry_lt_total t u h k = ground arith

pub insert_entry-Distinct :
    (t : Timer) (ts : List Timer) → Apart t.address ts → Distinct ts → Distinct (insert_entry t ts)
unfolding insert_entry
insert_entry-Distinct t [] a d = (tt, tt)
insert_entry-Distinct t (u ∷ us) a d = elim (Bool-cases (entry_lt t u)) [
  | inl before ↦ rw before (a, d)
  | inr not_before ↦
      rw (not_before, entry_lt_total t u a.0 not_before)
        (
          All-insert_entry (λ (v : Timer). v.address ≢ u.address) t us (λ e. a.0 (sym e)) d.0,
          insert_entry-Distinct t us a.1 d.1,
        )
]

pub length-insert_entry :
    (t : Timer) (ts : List Timer)
    → Apart t.address ts
    → length (insert_entry t ts) ≡ suc (length ts)
unfolding insert_entry
length-insert_entry t [] a = refl
length-insert_entry t (u ∷ us) a =
    ground (arith, length-insert_entry t us a.1, entry_lt_total t u a.0)

pub count_key-insert_entry :
    (k : Key) (t : Timer) (ts : List Timer)
    → Apart t.address ts
    → count_key k (keys (insert_entry t ts)) ≡ count_key k (key t ∷ keys ts)
unfolding insert_entry
count_key-insert_entry k t [] a = refl
count_key-insert_entry k t (u ∷ us) a =
    ground (arith, count_key-insert_entry k t us a.1, entry_lt_total t u a.0)

-- No timer at an address, no key with it.
pub count_key-Apart : (k : Key) (ts : List Timer) → Apart k.address ts → count_key k (keys ts) ≡ 0
count_key-Apart k [] a = refl
count_key-Apart k (t ∷ ts) a = ground (arith, count_key-Apart k ts a.1)

-- Each key occurs at most once.
pub count_key-le-one : (k : Key) (ts : List Timer) → Distinct ts → count_key k (keys ts) ≤ 1
count_key-le-one k [] d = omega arith
count_key-le-one k (t ∷ ts) d = elim (Bool-cases (t.address == k.address)) [
  | inl hit ↦
      let e : t.address ≡ k.address = ground arith in
      let none_behind = count_key-Apart k ts (subst (λ (a : ℕ). Apart a ts) e d.0) in
      ground (arith, none_behind)
  | inr miss ↦ ground (arith, count_key-le-one k ts d.1)
]

pub mem_key-count : (k : Key) (ks : List Key) → mem_key k ks ≡ ltb 0 (count_key k ks)
unfolding mem_key
mem_key-count k [] = refl
mem_key-count k (j ∷ js) = ground (arith, mem_key-count k js)

abbrev pub one : Key → Key → ℕ
one k j = if same_key k j then 1 else 0

-- Erasing a key that is there removes it once.
pub erase_key_lem :
    (k : Key) (ks : List Key)
    → mem_key k ks ≡ true
    → ((erase_key k ks).1 ≡ 1)
      × (suc (length (erase_key k ks).0) ≡ length ks)
      × ((j : Key) → one k j + count_key j (erase_key k ks).0 ≡ count_key j ks)
unfolding mem_key erase_key
erase_key_lem k [] h = cc
erase_key_lem k (x ∷ ks) h = elim (Bool-cases (same_key x k)) [
  | inl hit ↦ rw hit (refl, refl, λ j. ground arith)
  | inr miss ↦
      let (n, l, c) = erase_key_lem k ks (ground arith) in
      rw miss (n, ap suc l, λ j. omega (arith, c j))
]

-- Erasing a timer by its address removes its key once.
pub erase_timer_lem :
    (k : Key) (ts : List Timer)
    → Distinct ts
    → 0 < count_key k (keys ts)
    → ((erase_timer k.address ts).1 ≡ 1)
      × (suc (length (erase_timer k.address ts).0) ≡ length ts)
      × ((j : Key)
          → one k j + count_key j (keys (erase_timer k.address ts).0) ≡ count_key j (keys ts))
unfolding erase_timer
erase_timer_lem k [] d h = absurd (omega arith)
erase_timer_lem k (t ∷ ts) d h = elim (Bool-cases (t.address == k.address)) [
  | inl hit ↦
      let e : t.address ≡ k.address = ground arith in
      let none_behind : count_key k (keys ts) ≡ 0 =
        count_key-Apart k ts (subst (λ (a : ℕ). Apart a ts) e d.0) in
      let same : t.sequence ≡ k.sequence = ground (arith, none_behind) in
      rw hit (refl, refl, λ j. ground (arith, e, same))
  | inr miss ↦
      let (n, l, c) = erase_timer_lem k ts d.1 (ground arith) in
      rw miss (n, ap suc l, λ j. omega (arith, c j))
]

pub All-erase_timer {κ} :
    (P : Timer → Type κ) (a : ℕ) (ts : List Timer) → All P ts → All P (erase_timer a ts).0
unfolding erase_timer
All-erase_timer P a [] h = tt
All-erase_timer P a (t ∷ ts) h = elim (Bool-cases (t.address == a)) [
  | inl hit ↦ rw hit h.1
  | inr miss ↦ rw miss (h.0, All-erase_timer P a ts h.1)
]

pub erase_timer-Sorted : (a : ℕ) (ts : List Timer) → Sorted ts → Sorted (erase_timer a ts).0
unfolding erase_timer
erase_timer-Sorted a [] s = tt
erase_timer-Sorted a (t ∷ ts) s = elim (Bool-cases (t.address == a)) [
  | inl hit ↦ rw hit s.1
  | inr miss ↦
      rw miss (All-erase_timer (λ u. entry_lt t u ≡ true) a ts s.0, erase_timer-Sorted a ts s.1)
]

pub erase_timer-Distinct : (a : ℕ) (ts : List Timer) → Distinct ts → Distinct (erase_timer a ts).0
unfolding erase_timer
erase_timer-Distinct a [] s = tt
erase_timer-Distinct a (t ∷ ts) s = elim (Bool-cases (t.address == a)) [
  | inl hit ↦ rw hit s.1
  | inr miss ↦ rw miss (
    All-erase_timer (λ (u : Timer). u.address ≢ t.address) a ts s.0,
    erase_timer-Distinct a ts s.1,
  )
]

pub mem_key-insert_key : (k : Key) (ks : List Key) → mem_key k (insert_key k ks) ≡ true
unfolding insert_key mem_key
mem_key-insert_key k ks = ground arith
