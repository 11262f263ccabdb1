-- ===== src/EventLoop/Round.antt =====
-- netlib/net/EventLoop.cc: a round of `loop()` that no other thread disturbs.
use netlib.Base.{
  ℕ, ◌≡◌, refl, sym, ◌∙◌, ap, List, [], ◌∷◌, ◌++◌, append_assoc, append-nil, if◌then◌else◌,
}
use netlib.EventLoop.{
  polling, stopped, running, Loop, poll_returns, end_handling, swap_pending, run_first, end_round,
  polls, handled, swaps, runs, rounds, Reach, here, next,
}

-- The functors taken run to the last.
record Finished (k : Loop) (l : Loop) (fs : List ℕ) : Type 0 where
  final : Loop
  reached : Reach k final
  no_more : final.phase ≡ running []
  all_ran : final.ran ≡ l.ran ++ fs
  same_pending : final.pending ≡ l.pending
  same_quit : final.quit ≡ l.quit

finish : (fs : List ℕ) {k : Loop} (l : Loop) → Reach k l → l.phase ≡ running fs → Finished k l fs
unfolding run_first
finish [] l r e = record {
  final = l;
  reached = r;
  no_more = e;
  all_ran = sym (append-nil l.ran);
  same_pending = refl;
  same_quit = refl;
}
finish (f ∷ fs) l r e =
    let rest = finish fs (run_first f fs l) (next r (runs f fs e)) refl in
    record {
      final = rest.final;
      reached = rest.reached;
      no_more = rest.no_more;
      all_ran = rest.all_ran ∙ append_assoc l.ran (f ∷ []) fs;
      same_pending = rest.same_pending;
      same_quit = rest.same_quit;
    }

-- A loop that is back at the test of `while(!_quit)`, with what was pending before run.
record RoundDone (l : Loop) : Type 0 where
  pub final : Loop
  pub reached : Reach l final
  pub none_left : final.pending ≡ []
  pub all_ran : final.ran ≡ l.ran ++ l.pending
  pub goes_on : final.phase ≡ (if l.quit then stopped else polling)

-- From `poll` the round can be brought to its end with no event handled and no functor queued
-- meanwhile: then every functor that was pending has run, in order.
round-RoundDone : (l : Loop) → l.phase ≡ polling → RoundDone l
unfolding poll_returns end_handling swap_pending end_round
round-RoundDone l e =
    let before = end_handling (poll_returns l) in
    let ready = next (next (next here (polls e)) (handled refl)) (swaps refl) in
    let done = finish l.pending (swap_pending before) ready refl in
    record {
      final = end_round done.final;
      reached = next done.reached (rounds done.no_more);
      none_left = done.same_pending;
      all_ran = done.all_ran;
      goes_on = ap (λ q. if q then stopped else polling) done.same_quit;
    }
