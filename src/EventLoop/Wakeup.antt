-- ===== src/EventLoop/Wakeup.antt =====
-- netlib/net/EventLoop.cc: no wake-up is lost, and functors run once each, in the order of their
-- queueing.
use netlib.Base.{
  ℕ, ◌+◌, ◌<◌, ◌≡◌, ◌≢◌, refl, sym, ap, ◌∙◌, Bool, true, false, not, List, [], ◌∷◌, ◌++◌,
  append_assoc, append-nil, if◌then◌else◌, arith,
}
use netlib.EventLoop.{
  Phase, polling, handling, swapping, stopped, running, Loop, construct, start, wake_up, push,
  queue_here, queue_there, quit_here, quit_there, wake_there, poll_returns, handle_read,
  end_handling, swap_pending, run_first, end_round, Step, other_queues, other_quits, other_wakes,
  polls, reads, handler_queues, handler_quits, handled, swaps, runs, functor_queues, functor_quits,
  rounds, Reach, here, next,
}

abbrev pub taken : Phase → List ℕ
taken (running fs) = fs
taken polling = []
taken handling = []
taken swapping = []
taken stopped = []

abbrev pub in_functors : Phase → Bool
in_functors (running fs) = true
in_functors swapping = true
in_functors polling = false
in_functors handling = false
in_functors stopped = false

-- `_callPendingFunctors` is set exactly while functors are taken and run. While the loop is about
-- to wait, or waits, with work or a request to quit before it, a wake-up is there or on its way.
-- All that was queued has run, is being run or is pending, in this order.
pub record IsSound (l : Loop) : Type 0 where
  pub calling : l.calling_pending ≡ in_functors l.phase
  pub awake : l.phase ≡ polling → l.pending ≢ [] → 0 < l.wake_count + l.asleep
  pub rouses : (fs : List ℕ) → l.phase ≡ running fs → l.pending ≢ [] → 0 < l.wake_count + l.asleep
  pub quits : l.phase ≡ polling → l.quit ≡ true → 0 < l.wake_count + l.asleep
  pub order : (l.ran ++ taken l.phase) ++ l.pending ≡ l.queued

pub start-IsSound : IsSound (start construct)
unfolding start construct
start-IsSound = record {
  calling = refl;
  awake = λ _ h. absurd (h refl);
  rouses = λ _ _ h. absurd (h refl);
  quits = λ _ h. cc;
  order = refl;
}

queue_here_lem :
    (f : ℕ) (l : Loop) (b : Bool)
    → l.calling_pending ≡ b
    → queue_here f l ≡ (if b then wake_up (push f l) else push f l)
unfolding queue_here
queue_here_lem f l b e = ap (λ (c : Bool). if c then wake_up (push f l) else push f l) e

-- `push` puts the functor behind all others.
pushed :
    (f : ℕ) (l : Loop)
    → IsSound l
    → (l.ran ++ taken l.phase) ++ (l.pending ++ f ∷ []) ≡ l.queued ++ f ∷ []
pushed f l s =
    sym (append_assoc (l.ran ++ taken l.phase) l.pending (f ∷ [])) ∙ ap (λ t. t ++ f ∷ []) s.order

-- With a wake-up on its way nothing else is to show but the order.
roused :
    (l : Loop)
    → l.calling_pending ≡ in_functors l.phase
    → 0 < l.wake_count + l.asleep
    → (l.ran ++ taken l.phase) ++ l.pending ≡ l.queued
    → IsSound l
roused l c w o = record {
  calling = c;
  awake = λ _ _. w;
  rouses = λ _ _ _. w;
  quits = λ _ _. w;
  order = o;
}

-- Nor while events are dispatched.
dispatching :
    (l : Loop)
    → l.phase ≡ handling
    → l.calling_pending ≡ false
    → (l.ran ++ []) ++ l.pending ≡ l.queued
    → IsSound l
dispatching l e c o = record {
  calling = c ∙ rw e refl;
  awake = λ h _. cc;
  rouses = λ _ h _. cc;
  quits = λ h _. cc;
  order = rw e o;
}

-- What `end_round` leaves when `_quit` is `b`.
abbrev round_end : Bool → Loop → Loop
round_end b l = record l {
  calling_pending = false;
  looping = not b;
  phase = if b then stopped else polling;
}

end_round_lem : (l : Loop) (b : Bool) → l.quit ≡ b → end_round l ≡ round_end b l
unfolding end_round
end_round_lem l b e = ap (λ (c : Bool). round_end c l) e

round_end-IsSound :
    (l : Loop) (b : Bool) → l.quit ≡ b → l.phase ≡ running [] → IsSound l → IsSound (round_end b l)
round_end-IsSound l true q e s = record {
  calling = refl;
  awake = λ h _. cc;
  rouses = λ _ h _. cc;
  quits = λ h _. cc;
  order = rw e at s.order;
}
round_end-IsSound l false q e s = record {
  calling = refl;
  awake = λ _ h. s.rouses [] e h;
  rouses = λ _ h _. cc;
  quits = λ _ h. cc;
  order = rw e at s.order;
}

pub Step-IsSound : {l m : Loop} → Step l m → IsSound l → IsSound m
unfolding queue_there push quit_there wake_there wake_up poll_returns handle_read quit_here
    end_handling swap_pending run_first end_round
Step-IsSound {l} (other_queues f) s = roused _ s.calling (omega arith) (pushed f l s)
Step-IsSound other_quits s = roused _ s.calling (omega arith) s.order
Step-IsSound (other_wakes n e) s = roused _ s.calling (omega arith) s.order
Step-IsSound {l} (polls e) s = dispatching _ refl (s.calling ∙ rw e refl) (rw e at s.order)
Step-IsSound {l} (reads e) s = dispatching _ e (s.calling ∙ rw e refl) (rw e at s.order)
Step-IsSound {l} (handler_queues f e) s =
    rw (queue_here_lem f l false (s.calling ∙ rw e refl))
      (dispatching _ e (s.calling ∙ rw e refl) (rw e at (pushed f l s)))
Step-IsSound {l} (handler_quits e) s = dispatching _ e (s.calling ∙ rw e refl) (rw e at s.order)
Step-IsSound {l} (handled e) s = record {
  calling = refl;
  awake = λ h _. cc;
  rouses = λ _ h _. cc;
  quits = λ h _. cc;
  order = rw e at s.order;
}
Step-IsSound {l} (swaps e) s = record {
  calling = s.calling ∙ rw e refl;
  awake = λ h _. cc;
  rouses = λ _ _ h. absurd (h refl);
  quits = λ h _. cc;
  order =
      append-nil (l.ran ++ l.pending)
      ∙ ap (λ t. t ++ l.pending) (sym (append-nil l.ran))
      ∙ (rw e at s.order);
}
Step-IsSound {l} (runs f fs e) s = record {
  calling = s.calling ∙ rw e refl;
  awake = λ h _. cc;
  rouses = λ _ _ h. s.rouses (f ∷ fs) e h;
  quits = λ h _. cc;
  order = ap (λ t. t ++ l.pending) (append_assoc l.ran (f ∷ []) fs) ∙ (rw e at s.order);
}
Step-IsSound {l} (functor_queues f fs e) s =
    rw (queue_here_lem f l true (s.calling ∙ rw e refl))
      (roused _ s.calling (omega arith) (pushed f l s))
Step-IsSound {l} (functor_quits fs e) s = record {
  calling = s.calling;
  awake = λ h _. cc;
  rouses = s.rouses;
  quits = λ h _. cc;
  order = s.order;
}
Step-IsSound {l} (rounds e) s =
    rw (end_round_lem l l.quit refl) (round_end-IsSound l l.quit refl e s)

-- From the start of `loop()` on, through every interleaving of the loop's thread with others that
-- queue functors, quit the loop and wake it: no wake-up is lost. While the loop is in `poll` with
-- pending functors or a request to quit, the counter of the wake descriptor is not 0 or a thread
-- that will wake the loop has yet to do so; what was queued has run, each functor once and in
-- order, up to what is being run and what is pending; and `_callPendingFunctors` is set
-- exactly while functors are taken and run.
pub Reach-IsSound : {l : Loop} → Reach (start construct) l → IsSound l
Reach-IsSound here = start-IsSound
Reach-IsSound (next r e) = Step-IsSound e (Reach-IsSound r)
