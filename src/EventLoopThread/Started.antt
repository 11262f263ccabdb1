-- ===== src/EventLoopThread/Started.antt =====
-- netlib/net/EventLoopThread.cc: what `startLoop` returns, and when it waits.
use netlib.Base.{
  ℕ, ◌≡◌, ◌≢◌, ◌⊎◌, refl, sym, ap, ◌>>◌, assert, ◌∙◌, inl, inr, true, false, not, Bool-cases,
  Option, none, some,
}
use netlib.EventLoopThread.{
  Phase, unstarted, preparing, looping, ended, outside, asleep, returned, through, destroy,
  finish_destroy, LoopThread, begin, start_loop, test, test_loop, publish, finish, Step, starts,
  tests, publishes, finishes, destroys, joins,
}

abbrev published : ℕ → Phase → Option ℕ
published own unstarted = none
published own preparing = none
published own looping = some own
published own ended = none

-- The loop was published.
abbrev pub Running : Phase → Type 0
Running p = (p ≡ looping) ⊎ (p ≡ ended)

-- `_loop` is the thread's loop exactly while that runs. `startLoop` has returned no other, and sleeps
-- only before the loop runs or after it has ended. The destructor is through only when the thread has
-- ended, or never was.
pub record IsStarted (own : ℕ) (t : LoopThread) : Type 0 where
  pub mirrored : t.loop ≡ published own t.phase
  pub unstarted_yet : t.started ≡ false → (t.phase ≡ unstarted) × (t.starter ≡ outside)
  pub sleeps : t.starter ≡ asleep → t.phase ≢ looping
  pub gives : (p : ℕ) → t.starter ≡ returned p → p ≡ own
  pub late : (p : ℕ) → t.starter ≡ returned p → Running t.phase
  pub over : t.owner ≡ through → (t.phase ≡ unstarted) ⊎ (t.phase ≡ ended)

-- The assertion of `startLoop` held where it went on.
start_loop-begins : (t u : LoopThread) → start_loop t ≡ some u → (t.started ≡ false) × (u ≡ begin t)
unfolding start_loop
start_loop-begins t u e = elim (Bool-cases t.started) [
  | inl already ↦
      let failed : start_loop t ≡ none = ap (λ b. assert (not b) >> some (begin t)) already in
      absurd (cc (failed, e))
  | inr fresh ↦
      let went : start_loop t ≡ some (begin t) = ap (λ b. assert (not b) >> some (begin t)) fresh in
      (fresh, cc (went, e))
]

module _ (own : ℕ) where
  -- A loop that ended before `startLoop` looked.
  record Missed (t : LoopThread) : Type 0 where
    over : t.phase ≡ ended
    was_started : t.started ≡ true
    no_loop : t.loop ≡ none
    no_result : (p : ℕ) → t.starter ≢ returned p

  -- `startLoop` then never returns.
  Step-Missed : {t u : LoopThread} → Step own t u → Missed t → Missed u
  unfolding test_loop publish finish destroy finish_destroy
  Step-Missed {t} (starts u k e) m =
      let (n, h) = start_loop-begins t u e in absurd (cc (n, m.was_started))
  Step-Missed {t} (tests w) m = record {
    over = m.over;
    was_started = m.was_started;
    no_loop = m.no_loop;
    no_result = λ p e. cc (ap test (sym m.no_loop) ∙ e);
  }
  Step-Missed {t} (publishes h) m = absurd (cc (h, m.over))
  Step-Missed {t} (finishes h) m = absurd (cc (h, m.over))
  Step-Missed {t} (destroys i k) m = rw m.no_loop (record {
    over = m.over;
    was_started = m.was_started;
    no_loop = refl;
    no_result = m.no_result;
  })
  Step-Missed {t} (joins j e) m = record {
    over = m.over;
    was_started = m.was_started;
    no_loop = m.no_loop;
    no_result = m.no_result;
  }
