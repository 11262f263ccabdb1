-- ===== src/Thread/Awaited.antt =====
-- netlib/base/Thread.cc: `start` returns when the thread has told its number.
use netlib.Base.{
  ℕ, ◌<◌, ◌≤◌, ◌≡◌, ◌≢◌, refl, subst, Bool, true, false, lt→ltb, Option, none, some, List, [], ◌∷◌,
  arith,
}
use netlib.CountDownLatch.{through}
use netlib.CountDownLatch.Released.{
  IsReleased, construct-IsReleased, wait-IsReleased, count_down-IsReleased,
}
use netlib.Thread.{
  Phase, absent, created, told, counted, ended, aborted, Starter, not_called, waiting, returned,
  failed, Thread, set_default_name, construct, start, test_latch, finish_start, tell_tid,
  count_latch, run_func, join, Step, starts, tests, finishes, tells, counts, runs, joins, Reach,
  here, next,
}

-- How often the latch was counted down.
abbrev pub counts_of : Phase → ℕ
counts_of absent = 0
counts_of created = 0
counts_of told = 0
counts_of counted = 1
counts_of ended = 1
counts_of aborted = 1

-- A thread that is past telling its number has told one.
abbrev pub Told : Phase → ℕ → Type 0
Told absent tid = Unit {0}
Told created tid = Unit {0}
Told told tid = 0 < tid
Told counted tid = 0 < tid
Told ended tid = 0 < tid
Told aborted tid = 0 < tid

-- `_start` is set once there is a thread, and `start` has returned only with its number at hand.
abbrev pub Stands : Starter → Phase → Bool → ℕ → Type 0
Stands not_called phase started tid = (started ≡ false) × (phase ≡ absent)
Stands waiting phase started tid = started ≡ true
Stands returned phase started tid = (started ≡ true) × (0 < tid)
Stands failed phase started tid = started ≡ false

pub record IsAwaited (t : Thread) : Type 0 where
  pub latch : IsReleased 1 (counts_of t.phase) t.latch
  pub number : Told t.phase t.tid
  pub starter : Stands t.starter t.phase t.started t.tid

-- No assertion has failed.
abbrev pub Awaits : Option Thread → Type 0
Awaits (some t) = IsAwaited t
Awaits none = ⊥

counted-Told : (p : Phase) (tid : ℕ) → Told p tid → 1 ≤ counts_of p → 0 < tid
counted-Told absent tid t h = absurd (omega arith)
counted-Told created tid t h = absurd (omega arith)
counted-Told told tid t h = t
counted-Told counted tid t h = t
counted-Told ended tid t h = t
counted-Told aborted tid t h = t

-- The thread moves on: what the starter knows stays true.
Stands-move :
    (s : Starter) (p q : Phase) (started : Bool) (tid tid2 : ℕ)
    → p ≢ absent
    → 0 < tid2
    → Stands s p started tid
    → Stands s q started tid2
Stands-move not_called p q started tid tid2 n h (_, a) = absurd (n a)
Stands-move waiting p q started tid tid2 n h e = e
Stands-move returned p q started tid tid2 n h (e, _) = (e, h)
Stands-move failed p q started tid tid2 n h e = e

Stands-not_called :
    (s : Starter) (p : Phase) (started : Bool) (tid : ℕ)
    → s ≡ not_called
    → Stands s p started tid
    → (started ≡ false) × (p ≡ absent)
Stands-not_called not_called p started tid e h = h
Stands-not_called waiting p started tid e h = absurd cc
Stands-not_called returned p started tid e h = absurd cc
Stands-not_called failed p started tid e h = absurd cc

Stands-waiting :
    (s : Starter) (p : Phase) (started : Bool) (tid : ℕ)
    → s ≡ waiting
    → Stands s p started tid
    → started ≡ true
Stands-waiting not_called p started tid e h = absurd cc
Stands-waiting waiting p started tid e h = h
Stands-waiting returned p started tid e h = absurd cc
Stands-waiting failed p started tid e h = absurd cc

Stands-returned :
    (s : Starter) (p : Phase) (started : Bool) (tid : ℕ)
    → s ≡ returned
    → Stands s p started tid
    → (started ≡ true) × (0 < tid)
Stands-returned not_called p started tid e h = absurd cc
Stands-returned waiting p started tid e h = absurd cc
Stands-returned returned p started tid e h = h
Stands-returned failed p started tid e h = absurd cc

module _ (t : Thread) (v : IsAwaited t) where
  starts-Awaits : (made : Bool) → t.starter ≡ not_called → Awaits (start made t)
  unfolding start
  starts-Awaits made e =
      let (fresh, none_yet) = Stands-not_called t.starter t.phase t.started t.tid e v.starter in
      let quiet : IsReleased 1 0 t.latch =
        subst (λ p. IsReleased 1 (counts_of p) t.latch) none_yet v.latch in
      elim made as (λ m. Awaits (start m t)) [
        | true ↦ rw fresh (record { latch = quiet; number = tt; starter = refl })
        | false ↦ rw fresh (record { latch = v.latch; number = v.number; starter = refl })
      ]

  finishes-Awaits : t.starter ≡ waiting → t.latch.waiters 0 ≡ through → Awaits (finish_start t)
  unfolding finish_start
  finishes-Awaits w e =
      let number : 0 < t.tid = counted-Told t.phase t.tid v.number (v.latch.passed 0 e) in
      let set = Stands-waiting t.starter t.phase t.started t.tid w v.starter in
      rw (lt→ltb 0 t.tid number)
        (record { latch = v.latch; number = v.number; starter = (set, number) })

  tells-Awaits : (tid : ℕ) → 0 < tid → t.phase ≡ created → IsAwaited (tell_tid tid t)
  unfolding tell_tid
  tells-Awaits tid h e = record {
    latch = subst (λ p. IsReleased 1 (counts_of p) t.latch) e v.latch;
    number = h;
    starter = Stands-move t.starter t.phase told t.started t.tid tid (λ a. cc) h v.starter;
  }

  counts-Awaits : t.phase ≡ told → IsAwaited (count_latch t)
  unfolding count_latch
  counts-Awaits e =
      let number : 0 < t.tid = subst (λ p. Told p t.tid) e v.number in
      let before : IsReleased 1 0 t.latch =
        subst (λ p. IsReleased 1 (counts_of p) t.latch) e v.latch in
      record {
        latch = count_down-IsReleased 1 0 t.latch before;
        number = number;
        starter =
            Stands-move t.starter t.phase counted t.started t.tid t.tid (λ a. cc) number v.starter;
      }

  runs-Awaits : (throws : Bool) → t.phase ≡ counted → IsAwaited (run_func throws t)
  unfolding run_func
  runs-Awaits throws e =
      let number : 0 < t.tid = subst (λ p. Told p t.tid) e v.number in
      let before : IsReleased 1 1 t.latch =
        subst (λ p. IsReleased 1 (counts_of p) t.latch) e v.latch in
      let stays : (q : Phase) → Stands t.starter q t.started t.tid =
        λ q. Stands-move t.starter t.phase q t.started t.tid t.tid (λ a. cc) number v.starter in
      elim throws as (λ b. IsAwaited (run_func b t)) [
        | true ↦ record { latch = before; number = number; starter = stays aborted }
        | false ↦ record { latch = before; number = number; starter = stays ended }
      ]

  joins-Awaits : t.starter ≡ returned → t.joined ≡ false → Awaits (join t)
  unfolding join
  joins-Awaits e once =
      let (set, _) = Stands-returned t.starter t.phase t.started t.tid e v.starter in
      rw (set, once)
        (record {
          latch = v.latch;
          number = v.number;
          starter = subst (λ b. Stands t.starter t.phase b t.tid) set v.starter;
        })

  Step-Awaits : {o : Option Thread} → Step t o → Awaits o
  unfolding test_latch
  Step-Awaits (starts made e) = starts-Awaits made e
  Step-Awaits (tests e h) = record {
    latch = wait-IsReleased 1 (counts_of t.phase) 0 t.latch v.latch;
    number = v.number;
    starter = v.starter;
  }
  Step-Awaits (finishes w e) = finishes-Awaits w e
  Step-Awaits (tells tid h e) = tells-Awaits tid h e
  Step-Awaits (counts e) = counts-Awaits e
  Step-Awaits (runs throws e) = runs-Awaits throws e
  Step-Awaits (joins e once) = joins-Awaits e once

construct-IsAwaited : (n : ℕ) (name : List ℕ) → IsAwaited ((construct n name).0)
unfolding construct set_default_name
construct-IsAwaited n [] = record {
  latch = construct-IsReleased 1;
  number = tt;
  starter = (refl, refl);
}
construct-IsAwaited n (c ∷ cs) = record {
  latch = construct-IsReleased 1;
  number = tt;
  starter = (refl, refl);
}

-- From a new thread on, whether `pthread_create` succeeds or not, and however the starter's tests of
-- the latch, with awakenings for no reason, and the steps of the thread interleave: no assertion of
-- `start` or of one call of `join` after it fails, `_start` is true while `start` waits and once it
-- has returned, and false where no thread was made, and `start` has returned only once the thread
-- has told its positive number.
pub Reach-Awaits :
    (n : ℕ) (name : List ℕ) {o : Option Thread} → Reach ((construct n name).0) o → Awaits o
Reach-Awaits n name here = construct-IsAwaited n name
Reach-Awaits n name (next {u} r s) = Step-Awaits u (Reach-Awaits n name r) s
